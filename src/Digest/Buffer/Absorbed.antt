-- ===== src/Digest/Buffer/Absorbed.antt =====
-- Bytes that are fed piece by piece are mixed in as those of the whole message:
-- src/rdx/rdx_murmur3.cpp.
use mathlib.Core.List.{append-nil, append_assoc}
use rdx.Base.{
  ℕ, zero, suc, ◌+◌, ◌<◌, ◌≤◌, ◌≡◌, refl, sym, ap, ◌∙◌, inl, inr, List, [], ◌∷◌, ◌++◌, ◌==◌, arith,
  Bytes, length, take, set, u8, u32, Bool-cases, length-set, length-append,
}
use rdx.Digest.Buffer.{Hash, feed_byte, feed_loop, feed_bytes, feed_all}
use rdx.Digest.Buffer.Blocks.{absorbed, absorbed-short, absorbed-block}

-- the bytes of all pieces
abbrev pub joined : List Bytes → Bytes
joined [] = []
joined (p ∷ ps) = p ++ joined ps

take-set :
    (xs : Bytes) (i : ℕ) (b : ℕ) → i < length xs → take (i + 1) (set xs i b) ≡ take i xs ++ b ∷ []
take-set [] i b h = absurd (omega (arith, h))
take-set (x ∷ xs) zero b h = refl
take-set (x ∷ xs) (suc i) b h =
    let next : suc i + 1 ≡ suc (i + 1) = omega arith in
    ap (λ n. take n (x ∷ set xs i b)) next ∙ ap (λ ys. x ∷ ys) (take-set xs i b (omega (arith, h)))

take-whole : (xs : Bytes) (n : ℕ) → n ≡ length xs → take n xs ≡ xs
take-whole [] zero e = refl
take-whole [] (suc n) e = refl
take-whole (x ∷ xs) zero e = absurd (omega (arith, e))
take-whole (x ∷ xs) (suc n) e = ap (λ ys. x ∷ ys) (take-whole xs n (omega (arith, e)))

length-take : (n : ℕ) (xs : Bytes) → n ≤ length xs → length (take n xs) ≡ n
length-take zero xs h = refl
length-take (suc n) [] h = absurd (omega (arith, h))
length-take (suc n) (x ∷ xs) h = ap suc (length-take n xs (omega (arith, h)))

-- the bytes that wait in the buffer
abbrev pub waiting {ℓ} : {A : Type ℓ} → Hash A → Bytes
waiting v = take v.backlog_pos v.backlog

module _ {ℓ} {A : Type ℓ} (block_size : ℕ) (mix : A → Bytes → A) (positive : 1 ≤ block_size)
    (small : block_size < 256) where
  -- The buffer has the size of a block, and is not full.
  pub record IsBuffer (v : Hash A) : Type 0 where
    pub size : length v.backlog ≡ block_size
    pub below : v.backlog_pos < block_size

  record Fed (b : ℕ) (bs : Bytes) (v w : Hash A) : Type ℓ where
    buffer : IsBuffer w
    same :
        absorbed block_size mix v.words (waiting v ++ b ∷ bs)
        ≡ absorbed block_size mix w.words (waiting w ++ bs)

  feed_byte-Fed :
      (b : ℕ) (bs : Bytes) (v : Hash A) → IsBuffer v → Fed b bs v (feed_byte block_size mix b v)
  unfolding feed_byte
  feed_byte-Fed b bs v i =
      let inside : v.backlog_pos < length v.backlog = omega (arith, i.size, i.below) in
      let next : u8 (v.backlog_pos + 1) ≡ v.backlog_pos + 1 = omega (arith, i.below, small) in
      let grown = take-set v.backlog v.backlog_pos b inside in
      let size = length-set v.backlog v.backlog_pos b ∙ i.size in
      let moved = append_assoc (waiting v) (b ∷ []) bs in
      elim (Bool-cases (v.backlog_pos + 1 == block_size)) [
        | inl full ↦
            let last : v.backlog_pos + 1 ≡ block_size = ground arith in
            let whole =
              take-whole (set v.backlog v.backlog_pos b) (v.backlog_pos + 1) (last ∙ sym size) in
            rw (next, full)
              (record {
                buffer = record { size = size; below = omega (arith, positive) };
                same =
                    ap (absorbed block_size mix v.words)
                      (sym moved ∙ ap (λ xs. xs ++ bs) (sym grown ∙ whole))
                    ∙ absorbed-block block_size mix positive v.words (set v.backlog v.backlog_pos b)
                        bs size;
              })
        | inr open_yet ↦
            let more : v.backlog_pos + 1 < block_size = ground (arith, i.below) in
            rw (next, open_yet)
              (record {
                buffer = record { size = size; below = more };
                same =
                    ap (absorbed block_size mix v.words)
                      (sym moved ∙ ap (λ xs. xs ++ bs) (sym grown));
              })
      ]

  -- Behind the loop, what is still to come is mixed in as before it.
  feed_loop-absorbed :
      (bs rest : Bytes) (v : Hash A)
      → IsBuffer v
      → IsBuffer (feed_loop block_size mix bs v)
        × (absorbed block_size mix v.words (waiting v ++ (bs ++ rest))
            ≡ absorbed block_size mix
                (feed_loop block_size mix bs v).words
                (waiting (feed_loop block_size mix bs v) ++ rest))
  unfolding feed_loop
  feed_loop-absorbed [] rest v i = (i, refl)
  feed_loop-absorbed (b ∷ bs) rest v i =
      let f = feed_byte-Fed b (bs ++ rest) v i in
      let (j, e) = feed_loop-absorbed bs rest (feed_byte block_size mix b v) f.buffer in
      (j, f.same ∙ e)

  record Fits (ps : List Bytes) (v w : Hash A) : Type ℓ where
    buffer : IsBuffer w
    same :
        absorbed block_size mix v.words (waiting v ++ joined ps)
        ≡ absorbed block_size mix w.words (waiting w ++ [])
    len : w.len ≡ u32 (v.len + length (joined ps))

  feed_all-Fits :
      (ps : List Bytes) (v : Hash A)
      → IsBuffer v
      → v.len < 4294967296
      → Fits ps v (feed_all block_size mix ps v)
  unfolding feed_all feed_bytes
  feed_all-Fits [] v i word = record { buffer = i; same = refl; len = omega (arith, word) }
  feed_all-Fits (p ∷ ps) v i word =
      let (j, e) = feed_loop-absorbed p (joined ps) v i in
      let both = length-append p (joined ps) in
      let rest =
        feed_all-Fits ps (feed_bytes block_size mix p v) (record { size = j.size; below = j.below })
          (omega arith) in
      let len = rest.len in
      record { buffer = rest.buffer; same = e ∙ rest.same; len = omega (arith, len, both) }

  -- What is left in the state behind all calls, for an empty buffer before them.
  pub feed_all-absorbed :
      (ps : List Bytes) (v : Hash A)
      → IsBuffer v
      → v.backlog_pos ≡ 0
      → v.len < 4294967296
      → let w = feed_all block_size mix ps v in
        (absorbed block_size mix v.words (joined ps) ≡ (w.words, waiting w))
        × (length (waiting w) ≡ w.backlog_pos)
        × (w.backlog_pos < block_size)
        × (w.len ≡ u32 (v.len + length (joined ps)))
  feed_all-absorbed ps v i empty word =
      let f = feed_all-Fits ps v i word in
      let w = feed_all block_size mix ps v in
      let j = f.buffer in
      let inside : w.backlog_pos ≤ length w.backlog = omega (arith, j.size, j.below) in
      let few = length-take w.backlog_pos w.backlog inside in
      (
        ap (λ n. absorbed block_size mix v.words (take n v.backlog ++ joined ps)) (sym empty)
            ∙ f.same
            ∙ ap (absorbed block_size mix w.words) (append-nil (waiting w))
            ∙ absorbed-short block_size mix positive w.words (waiting w)
                (omega (arith, few, j.below)),
        few,
        j.below,
        f.len,
      )
