-- ===== src/Compress/Model/Totals.antt =====
-- Every total is the sum of its model's counters, and stays below `PMAX`.
use mathlib.Core.Path.{subst}
use native.Mathlib.Decide.{ℕ_discrete}
use rdx.Base.{
  ℕ, ◌+◌, ◌/◌, ◌<◌, ◌≤◌, ◌≡◌, ◌≢◌, refl, ◌∙◌, ◌⊎◌, inl, inr, Bool, true, false, ◌&&◌, ◌||◌, List,
  arith, ltb, leb, ◌==◌, if◌then◌else◌, length, set, get_or-set, length-set, u16, u32, Bool-cases,
  pass_below, pass_below-at,
}
use rdx.Compress.Model.{
  at, offsets, counts, increments, pmax, ModelSet, halve, update_probabilities,
}
use rdx.Compress.Model.Sums.{
  sum, sum_congr, at-le-sum, sum-set, sum-set_out, sum_halved, length-halve, at-halve, halve-sum,
}

pub record Shape (m : ℕ) : Type 0 where
  pub fits : at offsets m + at counts m ≤ 264
  pub few : at counts m ≤ 128
  pub grows : 1 ≤ at increments m
  pub slowly : at increments m ≤ 12

shape_check : ℕ → Bool
shape_check m =
    leb (at offsets m + at counts m) 264
    && leb (at counts m) 128
    && leb 1 (at increments m)
    && leb (at increments m) 12

apart_check : ℕ → ℕ → Bool
apart_check m k =
    m == k
    || leb (at offsets m + at counts m) (at offsets k)
    || leb (at offsets k + at counts k) (at offsets m)

pub shape : (m : ℕ) → m < 8 → Shape m
unfolding shape_check pass_below
shape m h =
    let checked : shape_check m ≡ true = pass_below-at 8 shape_check m refl h in ground arith

pub apart :
    (m k : ℕ)
    → m < 8
    → k < 8
    → m ≢ k
    → (at offsets m + at counts m ≤ at offsets k) ⊎ (at offsets k + at counts k ≤ at offsets m)
unfolding apart_check pass_below
apart m k h l ne =
    let rows = pass_below-at 8 (λ m. pass_below 8 (apart_check m)) m refl h in
    let checked : apart_check m k ≡ true = pass_below-at 8 (apart_check m) k rows l in ground arith

-- What holds of one model's part of the state.
pub record Slice (m : ℕ) (s : ModelSet) : Type 0 where
  pub counted : at s.ptotals m ≡ sum (at counts m) (at offsets m) s.prob_pool
  pub bounded : at s.ptotals m < pmax
  pub positive : (i : ℕ) → at offsets m ≤ i → i < at offsets m + at counts m → 1 ≤ at s.prob_pool i

pub record IsValid (s : ModelSet) : Type 0 where
  pub pool_size : length s.prob_pool ≡ 264
  pub totals_size : length s.ptotals ≡ 8
  pub slice : (m : ℕ) → m < 8 → Slice m s

module _ {s : ModelSet} (valid : IsValid s) (m : ℕ) (small : m < 8) (symbol : ℕ)
    (within : symbol < at counts m) where
  abbrev total' : ℕ
  total' = at s.ptotals m + at increments m

  abbrev count' : ℕ
  count' = at s.prob_pool (at offsets m + symbol) + at increments m

  abbrev bumped : ModelSet
  bumped = record {
    ptotals = set s.ptotals m (u32 total');
    prob_pool = set s.prob_pool (at offsets m + symbol) (u16 count');
  }

  no_wrap :
      (u32 total' ≡ total')
      × (u16 count' ≡ count')
      × (total' < 1012)
      × (at offsets m + symbol < 264)
  no_wrap =
      let sh = shape m small in
      let sl = valid.slice m small in
      let le =
        at-le-sum (at counts m) (at offsets m) (at offsets m + symbol) s.prob_pool (omega arith)
          (omega arith) in
      omega arith

  bumped_total : at bumped.ptotals m ≡ sum (at counts m) (at offsets m) bumped.prob_pool
  bumped_total =
      let sl = valid.slice m small in
      ground (
        arith,
        no_wrap,
        valid.pool_size,
        valid.totals_size,
        get_or-set s.ptotals m m (u32 total') 0,
        sum-set (at counts m) (at offsets m) (at offsets m + symbol) s.prob_pool (u16 count'),
      )

  bumped_value : at bumped.ptotals m ≡ total'
  bumped_value = ground (arith, no_wrap, valid.totals_size, get_or-set s.ptotals m m (u32 total') 0)

  bumped_positive :
      (i : ℕ) → at offsets m ≤ i → i < at offsets m + at counts m → 1 ≤ at bumped.prob_pool i
  bumped_positive i lo hi = ground (
    arith,
    no_wrap,
    valid.pool_size,
    (valid.slice m small).positive i lo hi,
    get_or-set s.prob_pool (at offsets m + symbol) i (u16 count') 0,
  )

  bumped_other : (k : ℕ) → k < 8 → m ≢ k → Slice k bumped
  bumped_other k h ne =
      let sl = valid.slice k h in
      let away = apart m k small h ne in
      record {
        counted = ground (
          arith,
          no_wrap,
          valid.totals_size,
          valid.pool_size,
          sl.counted,
          get_or-set s.ptotals m k (u32 total') 0,
          sum-set_out (at counts k) (at offsets k) (at offsets m + symbol) s.prob_pool (u16 count'),
        );
        bounded =
            ground (arith, valid.totals_size, sl.bounded, get_or-set s.ptotals m k (u32 total') 0);
        positive = λ i lo hi. ground (
          arith,
          no_wrap,
          valid.pool_size,
          sl.positive i lo hi,
          get_or-set s.prob_pool (at offsets m + symbol) i (u16 count') 0,
        );
      }

  abbrev halved : List ℕ × ℕ
  halved = halve (at counts m) (at offsets m) bumped.prob_pool 0

  abbrev normalized : ModelSet
  normalized = record { ptotals = set bumped.ptotals m halved.1; prob_pool = halved.0 }

  halved_at :
      (i : ℕ)
      → at halved.0 i ≡ (
          if leb (at offsets m) i && ltb i (at offsets m + at counts m)
          then u16 ((at bumped.prob_pool i + 1) / 2)
          else at bumped.prob_pool i)
  halved_at i =
      let sh = shape m small in
      at-halve (at counts m) (at offsets m) bumped.prob_pool 0 i (
        omega (arith, length-set s.prob_pool (at offsets m + symbol) (u16 count'), valid.pool_size))

  bumped_le :
      (i : ℕ) → at offsets m ≤ i → i < at offsets m + at counts m → at bumped.prob_pool i < 1012
  bumped_le i lo hi = omega (
    arith,
    bumped_total,
    bumped_value,
    no_wrap.2,
    at-le-sum (at counts m) (at offsets m) i bumped.prob_pool lo hi,
  )

  halved_sum : halved.1 ≡ sum (at counts m) (at offsets m) halved.0
  halved_sum =
      let sh = shape m small in
      let fits = length-set s.prob_pool (at offsets m + symbol) (u16 count') in
      omega (
        arith,
        halve-sum (at counts m) (at offsets m) bumped.prob_pool 0
            (omega (arith, fits, valid.pool_size)) (omega arith),
      )

  halved_bounded : halved.1 < pmax
  halved_bounded =
      let sh = shape m small in
      let less =
        sum_halved (at counts m) (at offsets m) bumped.prob_pool halved.0
          (λ j lo hi. ground (arith, halved_at j, bumped_le j lo hi)) in
      omega (arith, halved_sum, less, bumped_total, bumped_value, no_wrap.2)

  normalized_self : Slice m normalized
  normalized_self = record {
    counted = ground (
      arith,
      halved_sum,
      valid.totals_size,
      length-set s.ptotals m (u32 total'),
      get_or-set bumped.ptotals m m halved.1 0,
    );
    bounded = ground (
      arith,
      halved_bounded,
      valid.totals_size,
      length-set s.ptotals m (u32 total'),
      get_or-set bumped.ptotals m m halved.1 0,
    );
    positive = λ i lo hi. ground (arith, halved_at i, bumped_le i lo hi, bumped_positive i lo hi);
  }

  normalized_other : (k : ℕ) → k < 8 → m ≢ k → Slice k normalized
  normalized_other k h ne =
      let sl = bumped_other k h ne in
      let away = apart m k small h ne in
      let kept = get_or-set bumped.ptotals m k halved.1 0 in
      let same =
        sum_congr (at counts k) (at offsets k) halved.0 bumped.prob_pool
          (λ j lo hi. ground (arith, halved_at j)) in
      record {
        counted =
            ground (
              arith,
              sl.counted,
              same,
              kept,
              valid.totals_size,
              length-set s.ptotals m (u32 total'),
            );
        bounded =
            ground
              (arith, sl.bounded, kept, valid.totals_size, length-set s.ptotals m (u32 total'));
        positive = λ i lo hi. ground (arith, sl.positive i lo hi, halved_at i);
      }

  bumped_self : leb pmax (at bumped.ptotals m) ≡ false → Slice m bumped
  bumped_self calm = record {
    counted = bumped_total;
    bounded = ground arith;
    positive = bumped_positive;
  }

  every :
      {t : ModelSet}
      → Slice m t
      → ((k : ℕ) → k < 8 → m ≢ k → Slice k t)
      → (k : ℕ) → k < 8
      → Slice k t
  every {t} own others k h = elim (ℕ_discrete m k) [
    | yes e ↦ subst (λ j. Slice j t) e own
    | no ne ↦ others k h ne
  ]

  bumped_sizes : (length bumped.prob_pool ≡ 264) × (length bumped.ptotals ≡ 8)
  bumped_sizes =
      (length-set s.prob_pool _ _ ∙ valid.pool_size, length-set s.ptotals _ _ ∙ valid.totals_size)

  -- For one of the eight models and a symbol within its number of symbols, counting the symbol in a
  -- valid state gives a valid state, whether or not the counters are halved.
  pub update-IsValid : IsValid (update_probabilities m symbol s)
  unfolding update_probabilities
  update-IsValid = elim (Bool-cases (leb pmax (at bumped.ptotals m))) [
    | inl full ↦ rw full (record {
      pool_size = length-halve (at counts m) (at offsets m) bumped.prob_pool 0 ∙ bumped_sizes.0;
      totals_size = length-set bumped.ptotals m halved.1 ∙ bumped_sizes.1;
      slice = every normalized_self normalized_other;
    })
    | inr calm ↦ rw calm (record {
      pool_size = bumped_sizes.0;
      totals_size = bumped_sizes.1;
      slice = every (bumped_self calm) bumped_other;
    })
  ]
