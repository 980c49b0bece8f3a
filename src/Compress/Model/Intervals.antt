-- ===== src/Compress/Model/Intervals.antt =====
-- The intervals that the model hands to the range coder.
use native.Mathlib.Decide.{dec_lt}
use native.Mathlib.Numerals.{add-one}
use rdx.Base.{
  ℕ, zero, suc, ◌+◌, ◌-◌, ◌^◌, ◌<◌, ◌≤◌, ◌≡◌, ◌⊎◌, refl, ap, List, [], ◌∷◌, arith, ◌==◌, Bool-cases,
  inl, inr,
}
use rdx.Compress.Model.{
  at, offsets, counts, pmax, ModelSet, Interval, classify, sum_below, last_below, first_interval,
  second_interval, encode,
}
use rdx.Compress.Model.Sums.{sum, at-le-sum}
use rdx.Compress.Model.Totals.{IsValid, update-IsValid}
use rdx.Compress.Model.Classes.{classify-IsClass}

-- What the range coder needs of a call.
pub record IsInterval (i : Interval) : Type 0 where
  pub nonempty : 1 ≤ i.size
  pub within : i.start + i.size ≤ i.total
  pub narrow : i.total < pmax

abbrev pub AllIntervals : List Interval → Type 0
AllIntervals [] = Unit {0}
AllIntervals (i ∷ is) = IsInterval i × AllIntervals is

sum_snoc : (n i : ℕ) (xs : List ℕ) → sum n i xs + at xs (i + n) ≡ sum (suc n) i xs
unfolding sum
sum_snoc zero i xs = let here : i + 0 ≡ i = omega arith in rw here (omega arith)
sum_snoc (suc n) i xs =
    let there : i + 1 + n ≡ i + suc n = omega arith in
    omega (arith, ap (at xs) there, sum_snoc n (i + 1) xs)

sum_mono : (a b i : ℕ) (xs : List ℕ) → a ≤ b → sum a i xs ≤ sum b i xs
unfolding sum
sum_mono zero b i xs h = omega arith
sum_mono (suc a) zero i xs h = absurd (omega arith)
sum_mono (suc a) (suc b) i xs h = omega (arith, sum_mono a b (i + 1) xs (omega arith))

sum_below-sum : (n b : ℕ) (xs : List ℕ) → n ≤ b → sum b 0 xs < 2 ^ 32 → sum_below n xs ≡ sum n 0 xs
unfolding sum_below
sum_below-sum zero b xs h small = unfold sum in refl
sum_below-sum (suc n) b xs h small = omega (
  arith,
  sum_below-sum n b xs (omega arith) small,
  sum_snoc n 0 xs,
  ap (at xs) (zero_add n),
  sum_mono (suc n) b 0 xs h,
)
  where
    zero_add : (k : ℕ) → 0 + k ≡ k
    zero_add k = omega arith

sum_below-zero : (xs : List ℕ) → sum_below 0 xs ≡ 0
unfolding sum_below
sum_below-zero xs = refl

below_step :
    (n b : ℕ) (xs : List ℕ)
    → n < b
    → sum b 0 xs < 2 ^ 32
    → (sum_below n xs + at xs n ≡ sum (suc n) 0 xs) × (sum_below (suc n) xs ≡ sum (suc n) 0 xs)
below_step n b xs p small =
    let here : 0 + n ≡ n = omega arith in
    (
      omega (arith, sum_below-sum n b xs (omega arith) small, sum_snoc n 0 xs, ap (at xs) here),
      sum_below-sum (suc n) b xs p small,
    )

last_below_lem :
    (k : ℕ) (xs : List ℕ) (base : ℕ)
    → (last_below k xs base ≡ 0) × (k ≡ 0)
      ⊎ (last_below k xs base ≡ at xs (base + (k - 1))) × (1 ≤ k)
unfolding last_below
last_below_lem zero xs base = inl (refl, refl)
last_below_lem (suc k) xs base =
    let less : suc k - 1 ≡ k = omega arith in inr (rw less, omega arith)

-- Two counters of a range are at most its sum.
pair-le-sum :
    (n i j : ℕ) (xs : List ℕ) → i ≤ j → j + 1 < i + n → at xs j + at xs (j + 1) ≤ sum n i xs
unfolding sum
pair-le-sum zero i j xs lo hi = absurd (omega arith)
pair-le-sum (suc n) i j xs lo hi = elim (dec_lt i j) [
  | yes p ↦ omega (arith, pair-le-sum n (i + 1) j xs (omega arith) (omega arith))
  | no p ↦
      let same : i ≡ j = omega arith in
      omega (
        arith,
        ap (at xs) same,
        ap (λ t. at xs (t + 1)) same,
        at-le-sum n (i + 1) (i + 1) xs (omega arith) (omega arith),
      )
]

module _ {s : ModelSet} (valid : IsValid s) where
  -- In a valid state, for each of the ten symbols of the first level, its interval is well formed,
  -- the interval of the first symbol starts at 0, each interval ends where the next starts, and the
  -- last ends at the total.
  pub first_interval_tiles :
      (f : ℕ)
      → f < 10
      → IsInterval (first_interval f s)
        × ((first_interval 0 s).start ≡ 0)
        × ((first_interval (f + 1) s).start
            ≡ (first_interval f s).start + (first_interval f s).size)
        × ((first_interval 9 s).start + (first_interval 9 s).size ≡ (first_interval f s).total)
  unfolding first_interval
  first_interval_tiles f h =
      let sl = valid.slice 0 (omega arith) in
      let small : sum 10 0 s.prob_pool < 2 ^ 32 = omega (arith, sl.counted, sl.bounded) in
      let here = below_step f 10 s.prob_pool h small in
      let end = below_step 9 10 s.prob_pool (omega arith) small in
      (
        record {
          nonempty = sl.positive f (omega arith) (omega arith);
          within = omega (arith, here.0, sum_mono (suc f) 10 0 s.prob_pool h, sl.counted);
          narrow = sl.bounded;
        },
        sum_below-zero s.prob_pool,
        rw (add-one f) (omega (arith, here)),
        omega (arith, end.0, sl.counted),
      )

  module _ (m k : ℕ) (small : m < 8) (within : k < at counts m) where
    pub second_interval-IsInterval : IsInterval (second_interval m k s)
    unfolding second_interval
    second_interval-IsInterval =
        let sl = valid.slice m small in
        record {
          nonempty = sl.positive _ (omega arith) (omega arith);
          within = elim (last_below_lem k s.prob_pool (at offsets m)) [
            | inl (z, _) ↦ omega (
              arith,
              z,
              sl.counted,
              at-le-sum (at counts m) (at offsets m) (at offsets m + k) s.prob_pool (omega arith)
                  (omega arith),
            )
            | inr (z, p) ↦
                let next : at offsets m + (k - 1) + 1 ≡ at offsets m + k = omega arith in
                omega (
                  arith,
                  z,
                  sl.counted,
                  ap (at s.prob_pool) next,
                  pair-le-sum (at counts m) (at offsets m) (at offsets m + (k - 1)) s.prob_pool
                      (omega arith) (omega arith),
                )
          ];
          narrow = sl.bounded;
        }

    -- In a valid state, for one of the eight models and a counter of it from the third on, the
    -- interval of the counter starts before the counters below it end.
    second_interval_overlaps :
        2 ≤ k → (second_interval m k s).start < sum k (at offsets m) s.prob_pool
    unfolding second_interval
    second_interval_overlaps two = elim (last_below_lem k s.prob_pool (at offsets m)) [
      | inl (z, e) ↦ absurd (omega arith)
      | inr (z, p) ↦
          let sl = valid.slice m small in
          let next : at offsets m + (k - 2) + 1 ≡ at offsets m + (k - 1) = omega arith in
          omega (
            arith,
            z,
            ap (at s.prob_pool) next,
            sl.positive (at offsets m + (k - 2)) (omega arith) (omega arith),
            pair-le-sum k (at offsets m) (at offsets m + (k - 2)) s.prob_pool (omega arith)
                (omega arith),
          )
    ]

-- Coding a symbol below 257 from a valid state leaves a valid state, and every interval that is
-- handed to the range coder has a positive size and lies within its total, which is below 1000.
pub encode-IsValid :
    {s : ModelSet} (symbol : ℕ)
    → IsValid s
    → symbol < 257
    → IsValid (encode symbol s).1 × AllIntervals (encode symbol s).0
unfolding encode
encode-IsValid {s} symbol valid h =
    let (c, _) = classify-IsClass symbol h in
    let first = (classify symbol).first_sym in
    let t-valid = update-IsValid valid 0 (omega arith) first c.first_lt in
    let one = (first_interval_tiles valid first c.first_lt).0 in
    elim (Bool-cases ((classify symbol).second_model == 0)) [
      | inl plain ↦ rw plain (t-valid, (one, tt))
      | inr paired ↦
          let k-lt = c.second_lt (ground arith) in
          rw paired (
            update-IsValid t-valid _ c.model_lt _ k-lt,
            (one, (second_interval-IsInterval t-valid _ _ c.model_lt k-lt, tt)),
          )
    ]
