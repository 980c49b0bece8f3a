-- ===== src/HashMap/Cycle.antt =====
-- The rounds of a search of a hash table come to every index: src/rdx/rdx_hashmap.hpp.
use native.Mathlib.Decide.{dec_lt}
use rdx.Base.{ℕ, zero, suc, ◌+◌, ◌-◌, ◌<◌, ◌≡◌, ap, ◌∙◌, arith}
use rdx.HashMap.{next_index}
use rdx.HashMap.Probe.{probe}

next_index_inside : (n idx : ℕ) → suc idx < n → next_index n idx ≡ suc idx
next_index_inside n idx h = ground arith

next_index_last : (n idx : ℕ) → suc idx ≡ n → next_index n idx ≡ 0
next_index_last n idx h = ground arith

probe_inside : (n j idx : ℕ) → idx + j < n → probe n j idx ≡ idx + j
probe_inside n zero idx h = omega arith
probe_inside n (suc j) idx h =
    ap (probe n j) (next_index_inside n idx (omega (arith, h)))
    ∙ probe_inside n j (suc idx) (omega (arith, h))
    ∙ omega arith

probe_around : (n m p idx : ℕ) → idx + suc m ≡ n → p < n → probe n (suc (m + p)) idx ≡ p
probe_around n zero p idx e h =
    let all : 0 + p ≡ p = omega arith in
    ap (λ j. probe n (suc j) idx) all
    ∙ ap (probe n p) (next_index_last n idx (omega (arith, e)))
    ∙ probe_inside n p 0 (omega (arith, h))
    ∙ omega arith
probe_around n (suc m) p idx e h =
    let split : suc m + p ≡ suc (m + p) = omega arith in
    ap (λ j. probe n (suc j) idx) split
    ∙ ap (probe n (suc (m + p))) (next_index_inside n idx (omega (arith, e)))
    ∙ probe_around n m p (suc idx) (omega (arith, e)) h

pub comes_to : (n idx p : ℕ) → idx < n → p < n → (j : ℕ) × (j < n) × (probe n j idx ≡ p)
comes_to n idx p h l = elim (dec_lt p idx) [
  | yes lt ↦ (
    suc (n - idx - 1 + p),
    omega (arith, h, lt),
    probe_around n (n - idx - 1) p idx (omega (arith, h)) l,
  )
  | no ge ↦ (
    p - idx,
    omega (arith, l),
    probe_inside n (p - idx) idx (omega (arith, ge, l)) ∙ omega (arith, ge),
  )
]
