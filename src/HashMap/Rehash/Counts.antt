-- ===== src/HashMap/Rehash/Counts.antt =====
-- How many entries of a hash table have a property: src/rdx/rdx_hashmap.hpp.
use rdx.Base.{
  ℕ, zero, suc, ◌+◌, ◌≤◌, ◌<◌, ◌≡◌, refl, inl, inr, Bool, true, false, List, [], ◌∷◌, arith, length,
  get_or, set, Bool-cases,
}

abbrev pub one_if : Bool → ℕ
one_if true = 1
one_if false = 0

-- `count`, and the entry at an index that is overwritten
module _ {ℓ} {A : Type ℓ} (test : A → Bool) where
  unfoldable pub count : List A → ℕ
  count [] = 0
  count (x ∷ xs) = one_if (test x) + count xs

  pub count-set :
      (xs : List A) (i : ℕ) (y z : A)
      → i < length xs
      → count (set xs i y) + one_if (test (get_or xs i z)) ≡ count xs + one_if (test y)
  unfolding count
  count-set [] i y z h = absurd (omega (arith, h))
  count-set (x ∷ xs) zero y z h = omega arith
  count-set (x ∷ xs) (suc i) y z h =
      let rest = count-set xs i y z (omega (arith, h)) in omega (arith, rest)

  pub count-le : (xs : List A) → count xs ≤ length xs
  unfolding count
  count-le [] = omega arith
  count-le (x ∷ xs) =
      let rest = count-le xs in
      elim (Bool-cases (test x)) [
        | inl t ↦ rw t (omega (arith, rest))
        | inr f ↦ rw f (omega (arith, rest))
      ]

  -- Where fewer than `n` pass, one of the first `n` does not.
  pub count-missing :
      (xs : List A) (n : ℕ) (z : A)
      → count xs < n
      → n ≤ length xs
      → (p : ℕ) × (p < n) × (test (get_or xs p z) ≡ false)
  unfolding count
  count-missing xs zero z = λ h l. absurd (omega (arith, h))
  count-missing [] (suc n) z = λ h l. absurd (omega (arith, l))
  count-missing (x ∷ xs) (suc n) z = elim (Bool-cases (test x)) [
    | inr f ↦ λ h l. (0, omega arith, f)
    | inl t ↦ rw t (λ h l.
        let (p, below, fails) = count-missing xs n z (omega (arith, h)) (omega (arith, l)) in
        (suc p, omega (arith, below), fails))
  ]

  pub count-some :
      (xs : List A) (i : ℕ) (z : A) → i < length xs → test (get_or xs i z) ≡ true → 1 ≤ count xs
  unfolding count
  count-some [] i z h t = absurd (omega (arith, h))
  count-some (x ∷ xs) zero z h t = rw t (omega arith)
  count-some (x ∷ xs) (suc i) z h t =
      let rest = count-some xs i z (omega (arith, h)) t in omega (arith, rest)

  pub count-none : (xs : List A) (z : A) → ((p : ℕ) → test (get_or xs p z) ≡ false) → count xs ≡ 0
  unfolding count
  count-none [] z h = refl
  count-none (x ∷ xs) z h =
      let here = h 0 in let rest = count-none xs z (λ p. h (suc p)) in rw here (omega (arith, rest))

pub count-pointwise {ℓ} :
    {A : Type ℓ} (f g : A → Bool) (xs ys : List A) (z : A)
    → length ys ≡ length xs
    → ((p : ℕ) → f (get_or xs p z) ≡ g (get_or ys p z))
    → count f xs ≡ count g ys
unfolding count
count-pointwise f g [] [] z e h = refl
count-pointwise f g [] (y ∷ ys) z e h = absurd (omega (arith, e))
count-pointwise f g (x ∷ xs) [] z e h = absurd (omega (arith, e))
count-pointwise f g (x ∷ xs) (y ∷ ys) z e h =
    let here = h 0 in
    let rest = count-pointwise f g xs ys z (omega (arith, e)) (λ p. h (suc p)) in
    rw (here, rest) refl
