-- ===== src/Compress/Model/Sums.antt =====
-- Sums of counters over a part of the pool.
use native.Mathlib.Decide.{dec_lt}
use rdx.Base.{
  ℕ, zero, suc, ◌+◌, ◌*◌, ◌/◌, ◌<◌, ◌≤◌, ◌≡◌, refl, ◌∙◌, ◌⊎◌, List, arith, ltb, leb, ◌==◌, ◌^◌,
  ◌&&◌, if◌then◌else◌, length, set, get_or-set, length-set, u16, u32,
}
use rdx.Compress.Model.{at, halve}

-- n counters from index i on
unfoldable pub sum : ℕ → ℕ → List ℕ → ℕ
sum zero i xs = 0
sum (suc n) i xs = at xs i + sum n (i + 1) xs

pub sum_congr :
    (n i : ℕ) (xs ys : List ℕ)
    → ((j : ℕ) → i ≤ j → j < i + n → at xs j ≡ at ys j)
    → sum n i xs ≡ sum n i ys
unfolding sum
sum_congr zero i xs ys e = refl
sum_congr (suc n) i xs ys e = omega (
  arith,
  e i (omega arith) (omega arith),
  sum_congr n (i + 1) xs ys (λ j lo hi. e j (omega arith) (omega arith)),
)

pub at-le-sum : (n i j : ℕ) (xs : List ℕ) → i ≤ j → j < i + n → at xs j ≤ sum n i xs
unfolding sum
at-le-sum zero i j xs lo hi = absurd (omega arith)
at-le-sum (suc n) i j xs lo hi = ground (arith, at-le-sum n (i + 1) j xs)

pub sum-set :
    (n i j : ℕ) (xs : List ℕ) (v : ℕ)
    → i ≤ j
    → j < i + n
    → j < length xs
    → sum n i (set xs j v) + at xs j ≡ sum n i xs + v
unfolding sum
sum-set zero i j xs v lo hi h = absurd (omega arith)
sum-set (suc n) i j xs v lo hi h = elim (dec_lt i j) [
  | yes p ↦ ground (arith, sum-set n (i + 1) j xs v, get_or-set xs j i v 0)
  | no p ↦
      let same : i ≡ j = omega arith in
      let rest =
        sum_congr n (i + 1) (set xs j v) xs (λ k lo' hi'. ground (arith, get_or-set xs j k v 0)) in
      ground (arith, rest, get_or-set xs j i v 0)
]

pub sum-set_out :
    (n i j : ℕ) (xs : List ℕ) (v : ℕ)
    → j < length xs
    → (j < i) ⊎ (i + n ≤ j)
    → sum n i (set xs j v) ≡ sum n i xs
sum-set_out n i j xs v h apart =
    sum_congr n i (set xs j v) xs (λ k lo hi. ground (arith, get_or-set xs j k v 0))

-- A counter is halved, rounding up.
pub sum_halved :
    (n i : ℕ) (xs ys : List ℕ)
    → ((j : ℕ) → i ≤ j → j < i + n → 2 * at ys j ≤ at xs j + 1)
    → 2 * sum n i ys ≤ sum n i xs + n
unfolding sum
sum_halved zero i xs ys e = omega arith
sum_halved (suc n) i xs ys e = omega (
  arith,
  e i (omega arith) (omega arith),
  sum_halved n (i + 1) xs ys (λ j lo hi. e j (omega arith) (omega arith)),
)

pub length-halve : (n i : ℕ) (xs : List ℕ) (t : ℕ) → length (halve n i xs t).0 ≡ length xs
unfolding halve
length-halve zero i xs t = refl
length-halve (suc n) i xs t = length-halve n (i + 1) _ _ ∙ length-set xs i _

halve_step :
    (n i j : ℕ) (xs ys : List ℕ) {z : ℕ}
    → ((k : ℕ) → at ys k ≡ (if i == k then u16 ((at xs i + 1) / 2) else at xs k))
    → z ≡ (if leb (i + 1) j && ltb j (i + 1 + n) then u16 ((at ys j + 1) / 2) else at ys j)
    → z ≡ (if leb i j && ltb j (i + suc n) then u16 ((at xs j + 1) / 2) else at xs j)
halve_step n i j xs ys w e = ground (arith, w j)

pub at-halve :
    (n i : ℕ) (xs : List ℕ) (t j : ℕ)
    → i + n ≤ length xs
    → at (halve n i xs t).0 j
      ≡ (if leb i j && ltb j (i + n) then u16 ((at xs j + 1) / 2) else at xs j)
unfolding halve
at-halve zero i xs t j h = ground arith
at-halve (suc n) i xs t j h =
    let p = u16 ((at xs i + 1) / 2) in
    halve_step n i j xs (set xs i p) (λ k. get_or-set xs i k p 0 (omega arith))
      (at-halve n (i + 1) (set xs i p) (u32 (t + p)) j (omega (arith, length-set xs i p)))

-- The loop returns the sum of the halved counters.
pub halve-sum :
    (n i : ℕ) (xs : List ℕ) (t : ℕ)
    → i + n ≤ length xs
    → t + n * 65536 < 2 ^ 32
    → (halve n i xs t).1 ≡ t + sum n i (halve n i xs t).0
unfolding halve sum
halve-sum zero i xs t h small = omega arith
halve-sum (suc n) i xs t h small =
    let p = u16 ((at xs i + 1) / 2) in
    let ys = set xs i p in
    let l = length-set xs i p in
    omega (arith, halve-sum n (i + 1) ys (u32 (t + p)) (omega arith) (omega arith), first p l)
  where
    first :
        (p : ℕ)
        → length (set xs i p) ≡ length xs
        → at (halve n (i + 1) (set xs i p) (u32 (t + p))).0 i ≡ p
    first p l =
        ground (arith, at-halve n (i + 1) (set xs i p) (u32 (t + p)) i, get_or-set xs i i p 0)
