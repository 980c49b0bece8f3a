-- ===== src/Compress/Model/Fresh.antt =====
-- The state that `CSModelSet::Init` of src/rdxcompression/rdx_comp_sm.cpp makes.
use rdx.Base.{
  ℕ, ◌<◌, ◌≡◌, refl, Bool, true, ◌&&◌, arith, ltb, leb, ◌==◌, length, pass_below, pass_below-at,
}
use rdx.Compress.Model.{at, offsets, counts, pmax, init}
use rdx.Compress.Model.Sums.{sum}
use rdx.Compress.Model.Totals.{Slice, IsValid, shape}

init_check : ℕ → Bool
init_check m =
    (at init.ptotals m == sum (at counts m) (at offsets m) init.prob_pool)
    && ltb (at init.ptotals m) pmax

fresh_check : ℕ → Bool
fresh_check i = leb 1 (at init.prob_pool i)

init_checked : (m : ℕ) → m < 8 → init_check m ≡ true
unfolding init init_check pass_below sum
init_checked m h = pass_below-at 8 init_check m refl h

fresh_checked : (i : ℕ) → i < 264 → fresh_check i ≡ true
unfolding init fresh_check pass_below
fresh_checked i h = pass_below-at 264 fresh_check i refl h

init_sizes : (length init.prob_pool ≡ 264) × (length init.ptotals ≡ 8)
unfolding init
init_sizes = (refl, refl)

init_slice : (m : ℕ) → m < 8 → Slice m init
unfolding init_check fresh_check
init_slice m h =
    let sh = shape m h in
    record {
      counted = ground (arith, init_checked m h);
      bounded = ground (arith, init_checked m h);
      positive = λ i lo hi. ground (arith, fresh_checked i);
    }

-- `Init` makes a valid state: the arrays have their sizes, each total is the sum of its counters
-- and below 1000, and no counter is 0.
pub init-IsValid : IsValid init
init-IsValid = record { pool_size = init_sizes.0; totals_size = init_sizes.1; slice = init_slice }
