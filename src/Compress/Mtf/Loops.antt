-- ===== src/Compress/Mtf/Loops.antt =====
-- What the loops of the move-to-front coder leave at each index.
use rdx.Base.{
  ◌≢◌, ℕ, zero, suc, ◌+◌, ◌-◌, ◌<◌, ◌≡◌, refl, ◌∙◌, not, ◌&&◌, List, [], ◌∷◌, arith, ltb, leb, ◌==◌,
  if◌then◌else◌, u8, length, set, length-set, length-map, get_or-set, get_or-map,
}
use rdx.Compress.Mtf.{at, raise_below, raise_between, demote_first, shift_up}

pub length-shift_up : (n : ℕ) (xs : List ℕ) → length (shift_up n xs) ≡ length xs
unfolding shift_up
length-shift_up zero xs = refl
length-shift_up (suc n) xs = length-shift_up n _ ∙ length-set xs (suc n) _

shift_step :
    (n j : ℕ) (xs ys : List ℕ) {z : ℕ}
    → ((k : ℕ) → at ys k ≡ (if suc n == k then at xs n else at xs k))
    → z ≡ (if j == 0 then at ys 0 else if leb j n then at ys (j - 1) else at ys j)
    → z ≡ (if j == 0 then at xs 0 else if leb j (suc n) then at xs (j - 1) else at xs j)
shift_step n j xs ys w e = ground (arith, w 0, w j, w (j - 1))

pub at-shift_up :
    (n : ℕ) (xs : List ℕ) (j : ℕ)
    → n < length xs
    → at (shift_up n xs) j
      ≡ (if j == 0 then at xs 0 else if leb j n then at xs (j - 1) else at xs j)
unfolding shift_up
at-shift_up zero xs j h = ground arith
at-shift_up (suc n) xs j h =
    shift_step n j xs (set xs (suc n) (at xs n)) (λ k. get_or-set xs (suc n) k (at xs n) 0 h)
      (at-shift_up n _ j (omega (arith, length-set xs (suc n) (at xs n))))

pub length-raise_below : (r : ℕ) (xs : List ℕ) → length (raise_below r xs) ≡ length xs
unfolding raise_below
length-raise_below r xs = length-map _ xs

pub length-raise_between : (r : ℕ) (xs : List ℕ) → length (raise_between r xs) ≡ length xs
unfolding raise_between
length-raise_between r xs = length-map _ xs

pub at-raise_below :
    (r : ℕ) (xs : List ℕ) (j : ℕ)
    → j < length xs
    → at (raise_below r xs) j ≡ (if ltb (at xs j) r then u8 (at xs j + 1) else at xs j)
unfolding raise_below
at-raise_below r xs j h = get_or-map _ xs j 0 0 h

pub at-raise_between :
    (r : ℕ) (xs : List ℕ) (j : ℕ)
    → j < length xs
    → at (raise_between r xs) j
      ≡ (if not (at xs j == 0) && ltb (at xs j) r then u8 (at xs j + 1) else at xs j)
unfolding raise_between
at-raise_between r xs j h = get_or-map _ xs j 0 0 h

pub length-demote_first : (xs : List ℕ) → length (demote_first xs) ≡ length xs
unfolding demote_first
length-demote_first [] = refl
length-demote_first (x ∷ xs) = ground (arith, length-demote_first xs)

-- Where exactly one entry is zero, it becomes one and the others stay.
pub at-demote_first :
    (xs : List ℕ) (i j : ℕ)
    → i < length xs
    → j < length xs
    → at xs i ≡ 0
    → ((k : ℕ) → k < i → at xs k ≢ 0)
    → at (demote_first xs) j ≡ (if j == i then 1 else at xs j)
unfolding demote_first
at-demote_first [] i j h k z apart = absurd (omega arith)
at-demote_first (x ∷ xs) zero zero h k z apart = ground arith
at-demote_first (x ∷ xs) zero (suc j) h k z apart = ground arith
at-demote_first (x ∷ xs) (suc i) zero h k z apart = ground (arith, apart 0 (omega arith))
at-demote_first (x ∷ xs) (suc i) (suc j) h k z apart = ground (
  arith,
  apart 0 (omega arith),
  at-demote_first xs i j (omega arith) (omega arith) z (λ m p. apart (suc m) (omega arith)),
)
