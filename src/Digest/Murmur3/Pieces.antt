-- ===== src/Digest/Murmur3/Pieces.antt =====
-- The hashes of src/rdx/rdx_murmur3.cpp of bytes that are fed piece by piece, against the hash of a
-- message that is cut to blocks.
use mathlib.Core.List.{append-nil}
use rdx.Base.{
  ℕ, zero, suc, ◌+◌, ◌<◌, ◌≡◌, refl, sym, ap, ◌∙◌, inl, inr, List, [], ◌∷◌, ltb, arith, Bytes,
  length, get_or, take, u32, Bool-cases,
}
use rdx.Digest.Buffer.{Hash, feed_all}
use rdx.Digest.Buffer.Blocks.{absorbed}
use rdx.Digest.Buffer.Absorbed.{joined, waiting, feed_all-absorbed}
use rdx.Digest.Murmur3.{
  gathered, mix32, init32, finish32, flush32, Words, tail128, mix128, init128, close128, finish128,
  flush128, hash_bytes,
}

get_or-take : (n i : ℕ) (bs : Bytes) → i < n → get_or (take n bs) i 0 ≡ get_or bs i 0
get_or-take zero i bs h = absurd (omega (arith, h))
get_or-take (suc n) i [] h = refl
get_or-take (suc n) zero (b ∷ bs) h = refl
get_or-take (suc n) (suc i) (b ∷ bs) h = get_or-take n i bs (omega (arith, h))

-- Only bytes below the position are read.
gathered-take :
    (pos : ℕ) (bs : Bytes) (cases : List (ℕ × ℕ)) (k : ℕ)
    → gathered pos (take pos bs) cases k ≡ gathered pos bs cases k
unfolding gathered
gathered-take pos bs [] k = refl
gathered-take pos bs ((i, shift) ∷ cases) k = elim (Bool-cases (ltb i pos)) [
  | inl below ↦
      let lt : i < pos = ground arith in
      let same = get_or-take pos i bs lt in rw (below, same) (gathered-take pos bs cases _)
  | inr past ↦ rw past (gathered-take pos bs cases k)
]

finish32-take :
    (pos : ℕ) (bs : Bytes) (h len : ℕ) → finish32 pos (take pos bs) h len ≡ finish32 pos bs h len
unfolding finish32
finish32-take pos bs h len =
    let same = gathered-take pos bs ((2, 16) ∷ (1, 8) ∷ (0, 0) ∷ []) 0 in rw same refl

-- The hash of a message as a whole: the blocks are mixed in, then the bytes that are left.
abbrev pub digest32 : Bytes → ℕ
digest32 bs =
    let (h, rest) = absorbed 4 mix32 0 bs in finish32 (length rest) rest h (u32 (length bs))

abbrev pub digest128 : Bytes → ℕ × ℕ
digest128 bs =
    let (w, rest) = absorbed 16 mix128 init128.words bs in
    finish128 (length rest) rest w (u32 (length bs))

-- However a message is cut to the pieces that `FeedBytes` is called with, `Flush` of the hash of 32
-- bits gives what the blocks of four bytes of the whole message and the bytes that are left give.
pub flush32-feed_all :
    (ps : List Bytes) → flush32 (feed_all 4 mix32 ps init32) ≡ digest32 (joined ps)
unfolding flush32
flush32-feed_all ps =
    let (words, few, below, len) =
      feed_all-absorbed 4 mix32 (omega arith) (omega arith) ps init32
        (record { size = refl; below = omega arith }) refl (omega arith) in
    let w : Hash ℕ = feed_all 4 mix32 ps init32 in
    let none_before : u32 (0 + length (joined ps)) ≡ u32 (length (joined ps)) = omega arith in
    sym (finish32-take w.backlog_pos w.backlog w.words w.len)
    ∙ ap (λ n. finish32 n (waiting w) w.words w.len) (sym few)
    ∙ ap (finish32 (length (waiting w)) (waiting w) w.words) (len ∙ none_before)
    ∙ ap (λ (r : ℕ × Bytes). finish32 (length r.1) r.1 r.0 (u32 (length (joined ps)))) (sym words)

tail128-take : (pos : ℕ) (bs : Bytes) (w : Words) → tail128 pos (take pos bs) w ≡ tail128 pos bs w
unfolding tail128
tail128-take pos bs w =
    let k4 = gathered-take pos bs ((14, 16) ∷ (13, 8) ∷ (12, 0) ∷ []) 0 in
    let k3 = gathered-take pos bs ((11, 24) ∷ (10, 16) ∷ (9, 8) ∷ (8, 0) ∷ []) 0 in
    let k2 = gathered-take pos bs ((7, 24) ∷ (6, 16) ∷ (5, 8) ∷ (4, 0) ∷ []) 0 in
    let k1 = gathered-take pos bs ((3, 24) ∷ (2, 16) ∷ (1, 8) ∷ (0, 0) ∷ []) 0 in
    rw (k4, k3, k2, k1) refl

finish128-take :
    (pos : ℕ) (bs : Bytes) (w : Words) (len : ℕ)
    → finish128 pos (take pos bs) w len ≡ finish128 pos bs w len
finish128-take pos bs w len = ap (close128 len) (tail128-take pos bs w)

-- However a message is cut to the pieces that `FeedBytes` is called with, `Flush` of the hash of
-- 128 bits gives what the blocks of 16 bytes of the whole message and the bytes that are left give.
pub flush128-feed_all :
    (ps : List Bytes) → flush128 (feed_all 16 mix128 ps init128) ≡ digest128 (joined ps)
unfolding flush128
flush128-feed_all ps =
    let (words, few, below, len) =
      feed_all-absorbed 16 mix128 (omega arith) (omega arith) ps init128
        (record { size = refl; below = omega arith }) refl (omega arith) in
    let w : Hash Words = feed_all 16 mix128 ps init128 in
    let none_before : u32 (0 + length (joined ps)) ≡ u32 (length (joined ps)) = omega arith in
    sym (finish128-take w.backlog_pos w.backlog w.words w.len)
    ∙ ap (λ n. finish128 n (waiting w) w.words w.len) (sym few)
    ∙ ap (finish128 (length (waiting w)) (waiting w) w.words) (len ∙ none_before)
    ∙ ap (λ (r : Words × Bytes). finish128 (length r.1) r.1 r.0 (u32 (length (joined ps))))
        (sym words)

-- Two ways to cut a message give one hash: what `HashCKey` feeds by characters, and `rdxHashBytes`
-- as a whole.
pub hash_bytes-joined :
    (ps : List Bytes) → flush32 (feed_all 4 mix32 ps init32) ≡ hash_bytes (joined ps)
unfolding hash_bytes
hash_bytes-joined ps =
    flush32-feed_all ps
    ∙ ap digest32 (sym (append-nil (joined ps)))
    ∙ sym (unfold feed_all in flush32-feed_all (joined ps ∷ []))
