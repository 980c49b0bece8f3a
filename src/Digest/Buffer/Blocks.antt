-- ===== src/Digest/Buffer/Blocks.antt =====
-- Bytes cut to blocks of one size: what a digest of src/rdx/rdx_murmur3.cpp makes of a message that is
-- there as a whole.
use mathlib.Core.Path.{subst}
use rdx.Base.{
  ℕ, zero, suc, ◌-◌, ◌<◌, ◌≤◌, ◌≡◌, refl, ap, ◌∙◌, inl, inr, true, false, [], ◌∷◌, ◌++◌, ltb,
  if◌then◌else◌, arith, Bytes, length, take, drop, Bool-cases, length-append,
}

module _ {ℓ} {A : Type ℓ} (block_size : ℕ) (mix : A → Bytes → A) where
  -- Whole blocks are mixed in, as many as the fuel; the rest is left.
  unfoldable pub blocks : ℕ → A → Bytes → A × Bytes
  blocks zero h bs = (h, bs)
  blocks (suc fuel) h bs =
      let rest = blocks fuel (mix h (take block_size bs)) (drop block_size bs) in
      if ltb (length bs) block_size then (h, bs) else rest

  -- There are not more blocks than bytes.
  unfoldable pub absorbed : A → Bytes → A × Bytes
  absorbed h bs = blocks (length bs) h bs

length-drop : (n : ℕ) (bs : Bytes) → length (drop n bs) ≡ length bs - n
length-drop zero bs = omega arith
length-drop (suc n) [] = omega arith
length-drop (suc n) (b ∷ bs) = length-drop n bs ∙ omega arith

take-append : (xs ys : Bytes) → take (length xs) (xs ++ ys) ≡ xs
take-append [] ys = refl
take-append (x ∷ xs) ys = ap (λ zs. x ∷ zs) (take-append xs ys)

drop-append : (xs ys : Bytes) → drop (length xs) (xs ++ ys) ≡ ys
drop-append [] ys = refl
drop-append (x ∷ xs) ys = drop-append xs ys

module _ {ℓ} {A : Type ℓ} (block_size : ℕ) (mix : A → Bytes → A) (positive : 1 ≤ block_size) where
  -- Fuel for each byte is enough.
  blocks-fuel :
      (f g : ℕ) (h : A) (bs : Bytes)
      → length bs ≤ f
      → length bs ≤ g
      → blocks block_size mix f h bs ≡ blocks block_size mix g h bs
  unfolding blocks
  blocks-fuel zero zero h bs l m = refl
  blocks-fuel zero (suc g) h bs l m =
      let short : ltb (length bs) block_size ≡ true = ground arith in rw short refl
  blocks-fuel (suc f) zero h bs l m =
      let short : ltb (length bs) block_size ≡ true = ground arith in rw short refl
  blocks-fuel (suc f) (suc g) h bs l m = elim (Bool-cases (ltb (length bs) block_size)) [
    | inl short ↦ rw short refl
    | inr long ↦
        let some : block_size ≤ length bs = ground arith in
        let less = length-drop block_size bs in
        rw long (
          blocks-fuel f g (mix h (take block_size bs)) (drop block_size bs)
            (omega (arith, less, l, positive, some)) (omega (arith, less, m, positive, some)))
  ]

  -- Less than a block is left as it is.
  pub absorbed-short :
      (h : A) (bs : Bytes) → length bs < block_size → absorbed block_size mix h bs ≡ (h, bs)
  unfolding absorbed blocks
  absorbed-short h [] l = refl
  absorbed-short h (b ∷ bs) l =
      let short : ltb (length (b ∷ bs)) block_size ≡ true = ground arith in rw short refl

  one_block :
      (f : ℕ) (h : A) (xs bs : Bytes)
      → length xs ≡ block_size
      → blocks block_size mix (suc f) h (xs ++ bs) ≡ blocks block_size mix f (mix h xs) bs
  unfolding blocks
  one_block f h xs bs size =
      let both = length-append xs bs in
      let long : ltb (length (xs ++ bs)) block_size ≡ false = ground arith in
      let front = subst (λ n. take n (xs ++ bs) ≡ xs) size (take-append xs bs) in
      let back = subst (λ n. drop n (xs ++ bs) ≡ bs) size (drop-append xs bs) in
      rw (long, front, back) refl

  -- A block in front is mixed in.
  pub absorbed-block :
      (h : A) (xs bs : Bytes)
      → length xs ≡ block_size
      → absorbed block_size mix h (xs ++ bs) ≡ absorbed block_size mix (mix h xs) bs
  unfolding absorbed
  absorbed-block h xs bs size =
      let both = length-append xs bs in
      blocks-fuel (length (xs ++ bs)) (suc (length (xs ++ bs))) h (xs ++ bs) (omega arith)
        (omega arith)
      ∙ one_block (length (xs ++ bs)) h xs bs size
      ∙ blocks-fuel (length (xs ++ bs)) (length bs) (mix h xs) bs (omega (arith, both))
          (omega arith)
