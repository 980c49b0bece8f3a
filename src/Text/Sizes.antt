-- ===== src/Text/Sizes.antt =====
-- The unsigned overflow checks and `rdxPaddedSize` of src/rdx/rdx_utility.hpp, for sizes of 64 bits.
-- A check is true where there is no overflow.
use native.Mathlib.Nat.{le-div_iff_mul-le, mod-lt, div-add-mod, mul-div_cancel_left}
use native.Mathlib.Decide.{ℕ_discrete}
use rdx.Base.{
  ℕ, ◌+◌, ◌-◌, ◌*◌, ◌/◌, ◌%◌, ◌<◌, ◌≤◌, ◌≡◌, ◌↔◌, refl, sym, ap, ◌⊎◌, inl, inr, Bool, true, not,
  ◌||◌, Option, none, some, arith, leb, ◌==◌, if◌then◌else◌, u64, Bool-cases,
}

-- `RDX_LARGEUINT_MAX`
abbrev pub largeuint_max : ℕ
largeuint_max = 18446744073709551615

unfoldable pub check_add_overflow_u : ℕ → ℕ → Bool
check_add_overflow_u a b = leb a (largeuint_max - b)

unfoldable pub check_mul_overflow_u : ℕ → ℕ → Bool
check_mul_overflow_u a b = if a == 0 || b == 0 then true else leb a (largeuint_max / b)

-- The padded size with `overflowed`; none where that is set.
unfoldable pub padded_size : ℕ → ℕ → Option ℕ
padded_size v alignment =
    let base_pad = alignment - 1 in
    if not (check_add_overflow_u v base_pad)
    then none
    else let w = u64 (v + base_pad) in some (w - w % alignment)

-- The other overload, without the check.
unfoldable pub padded_size_unchecked : ℕ → ℕ → ℕ
padded_size_unchecked v alignment = let w = u64 (v + (alignment - 1)) in w - w % alignment

-- For any size and one up to the largest, the check of a sum is true exactly where the sum does not
-- exceed the largest size.
check_add_overflow_u_lem :
    (a b : ℕ) → b ≤ largeuint_max → (check_add_overflow_u a b ≡ true) ↔ (a + b ≤ largeuint_max)
unfolding check_add_overflow_u
check_add_overflow_u_lem a b h = ground arith

le_leb : (a b : ℕ) → a ≤ b → leb a b ≡ true
le_leb a b h = ground arith

no_product : (a b : ℕ) → (a == 0 || b == 0) ≡ true → a * b ≤ largeuint_max
no_product a b z = elim (ℕ_discrete a 0) [
  | yes e ↦ rw e (omega arith)
  | no ne ↦ let e : b ≡ 0 = ground arith in rw e (omega arith)
]

-- For any two sizes, the check of a product is true exactly where the product does not exceed the
-- largest size.
pub check_mul_overflow_u_lem :
    (a b : ℕ) → (check_mul_overflow_u a b ≡ true) ↔ (a * b ≤ largeuint_max)
unfolding check_mul_overflow_u
check_mul_overflow_u_lem a b = elim (Bool-cases (a == 0 || b == 0)) [
  | inl z ↦ rw z (λ _. no_product a b z, λ _. refl)
  | inr nz ↦
      let cut = le-div_iff_mul-le {k = b} {x = a} {y = largeuint_max} (ground arith) in
      rw nz (λ h. cut.0 (ground arith), λ h. le_leb _ _ (cut.1 h))
]

-- a multiple of the alignment from v on
pub record IsPadded (v alignment w : ℕ) : Type 0 where
  pub enough : v ≤ w
  pub tight : w < v + alignment
  pub multiple : w ≡ alignment * (w / alignment)

rounded :
    (v alignment : ℕ)
    → 1 ≤ alignment
    → let w = v + (alignment - 1) in
      (w - w % alignment ≡ alignment * (w / alignment))
      × IsPadded v alignment (alignment * (w / alignment))
rounded v alignment pos =
    let w : ℕ = v + (alignment - 1) in
    let split : alignment * (w / alignment) + w % alignment ≡ w = div-add-mod w alignment in
    let left : w % alignment < alignment = mod-lt w pos in
    (
      omega (arith, split),
      record {
        enough = omega (arith, split, left);
        tight = omega (arith, split, pos);
        multiple = sym (ap (λ q. alignment * q) (mul-div_cancel_left (w / alignment) pos));
      },
    )

-- For an alignment from 1 to the largest size, either the size and the alignment less one exceed
-- the largest size and the padded size reports an overflow, or both overloads give the same size,
-- which is the multiple of the alignment from the size on and below the size plus the alignment.
pub padded_size_lem :
    (v alignment : ℕ)
    → 1 ≤ alignment
    → alignment ≤ largeuint_max
    → (largeuint_max < v + (alignment - 1)) × (padded_size v alignment ≡ none)
      ⊎ (w : ℕ) × (padded_size v alignment ≡ some w)
        × (padded_size_unchecked v alignment ≡ w)
        × IsPadded v alignment w
unfolding padded_size padded_size_unchecked check_add_overflow_u
padded_size_lem v alignment pos small =
    elim (Bool-cases (leb v (largeuint_max - (alignment - 1)))) [
      | inr over ↦ inl (ground arith, rw over refl)
      | inl fits ↦
          let w : ℕ = v + (alignment - 1) in
          let word : u64 w ≡ w = ground arith in
          let (e, padded) = rounded v alignment pos in
          inr (alignment * (w / alignment), rw (fits, word, e) refl, rw (word, e) refl, padded)
    ]
