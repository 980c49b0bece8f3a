-- ===== src/Compress/Model.antt =====
-- src/rdxcompression/rdx_comp_sm.hpp and rdx_comp_sm.cpp: the structured model.
-- The pool of 264 counters holds eight models one behind the other. A call of `rc.Encode` is an
-- interval in the list that an operation returns beside the new state, in the order of the calls.
pub mod Sums
pub mod Totals
pub mod Fresh
pub mod Classes
pub mod Intervals
pub mod Collision
use rdx.Base.{
  ℕ, zero, suc, ◌+◌, ◌-◌, ◌*◌, ◌/◌, ◌%◌, Bool, true, false, List, [], ◌∷◌, ◌++◌, ltb, leb, ◌==◌,
  if◌then◌else◌, get_or, set, replicate, u16, u32,
}

abbrev pub at : List ℕ → ℕ → ℕ
at xs i = get_or xs i 0

-- `SM_PROB_POOL_OFFSETS`, `SM_PROB_POOL_COUNTS`, `SM_INCTABLE`, and `PMAX` of rdx_comp_config.hpp
abbrev pub offsets : List ℕ
offsets = 0 ∷ 10 ∷ 12 ∷ 16 ∷ 24 ∷ 40 ∷ 72 ∷ 136 ∷ []

abbrev pub counts : List ℕ
counts = 10 ∷ 2 ∷ 4 ∷ 8 ∷ 16 ∷ 32 ∷ 64 ∷ 128 ∷ []

abbrev pub increments : List ℕ
increments = 12 ∷ 4 ∷ 3 ∷ 3 ∷ 3 ∷ 3 ∷ 2 ∷ 1 ∷ []

abbrev pub pmax : ℕ
pmax = 1000

pub record ModelSet : Type 0 where
  pub ptotals : List ℕ
  pub prob_pool : List ℕ

-- the arguments of one call of `rc.Encode`
pub record Interval : Type 0 where
  pub start : ℕ
  pub size : ℕ
  pub total : ℕ

-- `for(i = 0; i < count; i++) { probs[i] = (probs[i] + 1) >> 1; t += probs[i]; }` with n rounds left
unfoldable pub halve : ℕ → ℕ → List ℕ → ℕ → List ℕ × ℕ
halve zero i pool t = (pool, t)
halve (suc n) i pool t =
    let p = u16 ((at pool i + 1) / 2) in halve n (i + 1) (set pool i p) (u32 (t + p))

unfoldable pub update_probabilities : ℕ → ℕ → ModelSet → ModelSet
unfolding halve
update_probabilities model symbol s =
    let place = at offsets model + symbol in
    let ptotals = set s.ptotals model (u32 (at s.ptotals model + at increments model)) in
    let pool = set s.prob_pool place (u16 (at s.prob_pool place + at increments model)) in
    if leb pmax (at ptotals model)
    then (let (halved, t) = halve (at counts model) (at offsets model) pool 0 in
        record { ptotals = set ptotals model t; prob_pool = halved })
    else record { ptotals = ptotals; prob_pool = pool }

-- the two loops of `Init`, over the models that are left
unfoldable pub init_pool : List ℕ → List ℕ → List ℕ
init_pool (c ∷ cs) (inc ∷ incs) = replicate c inc ++ init_pool cs incs
init_pool _ _ = []

unfoldable pub init_totals : List ℕ → List ℕ → List ℕ
init_totals (c ∷ cs) (inc ∷ incs) = u32 (inc * c) ∷ init_totals cs incs
init_totals _ _ = []

unfoldable pub init : ModelSet
unfolding init_pool init_totals
init = record { ptotals = init_totals counts increments; prob_pool = init_pool counts increments }

-- What `Encode` makes of a symbol: `firstSym`, `secondModel` and `secondSym`. A `secondModel` of
-- zero is none, and `secondSym` then stays unset.
pub record Class : Type 0 where
  pub first_sym : ℕ
  pub second_model : ℕ
  pub second_sym : ℕ

abbrev plain : ℕ → Class
plain first = record { first_sym = first; second_model = 0; second_sym = 0 }

abbrev in_model : ℕ → ℕ → ℕ → Class
in_model first model second = record {
  first_sym = first;
  second_model = model;
  second_sym = second;
}

-- `sym & 0x80` and so on, of a symbol from which one has been taken
unfoldable pub classify_large : ℕ → Class
classify_large v =
    if (v / 128) % 2 == 1
    then in_model 9 7 (v - 128)
    else if (v / 64) % 2 == 1
    then in_model 8 6 (v - 64)
    else if (v / 32) % 2 == 1
    then in_model 7 5 (v - 32)
    else if (v / 16) % 2 == 1
    then in_model 6 4 (v - 16)
    else if (v / 8) % 2 == 1
    then in_model 5 3 (v - 8)
    else if (v / 4) % 2 == 1
    then in_model 4 2 (v - 4)
    else in_model 3 1 (v - 2)

unfoldable pub classify : ℕ → Class
unfolding classify_large
classify sym =
    if sym == 0
    then plain 0
    else if sym == 1
    then plain 1
    else if sym == 2
    then plain 2
    else classify_large (sym - 1)

-- `for(i = 0; i < n; i++) start += m_probPool[i]`, in 32 bits
unfoldable pub sum_below : ℕ → List ℕ → ℕ
sum_below zero pool = 0
sum_below (suc n) pool = u32 (sum_below n pool + at pool n)

-- `for(i = 0; i < n; i++) start = subProbs[i]`: the loop keeps only the last counter
unfoldable pub last_below : ℕ → List ℕ → ℕ → ℕ
last_below zero pool base = 0
last_below (suc n) pool base = at pool (base + n)

unfoldable pub first_interval : ℕ → ModelSet → Interval
first_interval first s = record {
  start = sum_below first s.prob_pool;
  size = at s.prob_pool first;
  total = at s.ptotals 0;
}

unfoldable pub second_interval : ℕ → ℕ → ModelSet → Interval
second_interval model second s =
    let base = at offsets model in
    record {
      start = last_below second s.prob_pool base;
      size = at s.prob_pool (base + second);
      total = at s.ptotals model;
    }

unfoldable pub encode : ℕ → ModelSet → List Interval × ModelSet
encode sym s =
    let c = classify sym in
    let one = first_interval c.first_sym s in
    let t = update_probabilities 0 c.first_sym s in
    if c.second_model == 0 then (one ∷ [], t) else (
      one ∷ second_interval c.second_model c.second_sym t ∷ [],
      update_probabilities c.second_model c.second_sym t,
    )
