-- ===== src/Tests/Guid.antt =====
-- src/rdx/rdx_guid.cpp: the checksum and the digest of short texts, whole and in pieces.
use rdx.Base.{◌≡◌, refl, arith, List, [], ◌∷◌, take, replicate, Bytes}
use rdx.Digest.Buffer.Absorbed.{joined}
use rdx.Digest.Crc32.{complement, crc_byte, crc_loop, crc32, crc_all}
use rdx.Digest.Crc32.Bitwise.{AllPieces, divided, crc_all-divided}
use rdx.Digest.Sha256.{
  init_sha256, shift_right_rotate, cycle, extend_seeds, cycles, feed_seed, feed_loop_sha256,
  feed_seeds, feed_pieces, flush_sha256,
}
use rdx.Digest.Sha256.Reference.{digest256}
use rdx.Digest.Sha256.Padded.{flush_sha256-feed_pieces}

-- "12345", nothing, "6789"
abbrev pieces : List Bytes
pieces = (49 ∷ 50 ∷ 51 ∷ 52 ∷ 53 ∷ []) ∷ [] ∷ (54 ∷ 55 ∷ 56 ∷ 57 ∷ []) ∷ []

pieces-AllPieces : AllPieces pieces
pieces-AllPieces = (
  (omega arith, (omega arith, (omega arith, (omega arith, (omega arith, tt))))),
  (tt, ((omega arith, (omega arith, (omega arith, (omega arith, tt)))), tt)),
)

-- the check value of CRC-32
check_value : crc_all pieces 0 ≡ 0xcbf43926
unfolding crc_all crc32 crc_loop crc_byte
check_value = refl

crc_all-divided_example : crc_all pieces 0 ≡ complement (divided 0xffffffff (joined pieces))
crc_all-divided_example = crc_all-divided pieces pieces-AllPieces

-- The first bytes of the output for no bytes, where SHA-256 has e3 b0 c4 42.
no_bytes : take 4 (flush_sha256 (init_sha256 (replicate 48 0))).0 ≡ 0x46 ∷ 0x2c ∷ 0xb9 ∷ 0x34 ∷ []
unfolding flush_sha256 init_sha256 feed_seeds feed_loop_sha256 feed_seed extend_seeds cycles cycle
    shift_right_rotate
no_bytes = refl

flush_sha256-feed_pieces_example :
    (flush_sha256 (feed_pieces pieces (init_sha256 (replicate 48 7)))).0 ≡ digest256 (joined pieces)
flush_sha256-feed_pieces_example = flush_sha256-feed_pieces pieces (replicate 48 7) refl
