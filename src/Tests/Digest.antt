-- ===== src/Tests/Digest.antt =====
-- src/rdx/rdx_murmur3.cpp: hashes of short texts, whole and in pieces.
use rdx.Base.{◌≡◌, refl, List, [], ◌∷◌, Bytes}
use rdx.Digest.Buffer.{feed_byte, feed_loop, feed_bytes, feed_all}
use rdx.Digest.Buffer.Blocks.{absorbed, blocks}
use rdx.Digest.Buffer.Absorbed.{joined}
use rdx.Digest.Murmur3.{
  rot_l32, get_block32, f_mix32, scrambled, gathered, mix32, init32, finish32, flush32, stirred,
  mix128, init128, tail128, close128, flush128, hash_bytes,
}
use rdx.Digest.Murmur3.Pieces.{digest32, digest128, flush32-feed_all, flush128-feed_all}

program : Unit {0}
unfolding feed_byte feed_loop feed_bytes feed_all absorbed blocks rot_l32 get_block32 f_mix32
    scrambled gathered mix32 finish32 flush32 stirred mix128 tail128 close128 flush128 hash_bytes
program = tt

-- "test"
abbrev text : Bytes
text = 116 ∷ 101 ∷ 115 ∷ 116 ∷ []

-- "te", nothing, "sted"
abbrev pieces : List Bytes
pieces = (116 ∷ 101 ∷ []) ∷ [] ∷ (115 ∷ 116 ∷ 101 ∷ 100 ∷ []) ∷ []

whole_text : hash_bytes text ≡ 0xba6bd213
whole_text = unfold program in refl

-- one byte, where MurmurHash3 gives 0x3c2569b2
one_byte : hash_bytes (97 ∷ []) ≡ 1867108634
one_byte = unfold program in refl

in_pieces : flush32 (feed_all 4 mix32 pieces init32) ≡ hash_bytes (joined pieces)
in_pieces = unfold program in refl

in_pieces128 :
    flush128 (feed_all 16 mix128 pieces init128) ≡ (2419576267219684230, 11755716595906032117)
in_pieces128 = unfold program in refl

flush32-feed_all_example : flush32 (feed_all 4 mix32 pieces init32) ≡ digest32 (joined pieces)
flush32-feed_all_example = flush32-feed_all pieces

flush128-feed_all_example : flush128 (feed_all 16 mix128 pieces init128) ≡ digest128 (joined pieces)
flush128-feed_all_example = flush128-feed_all pieces
