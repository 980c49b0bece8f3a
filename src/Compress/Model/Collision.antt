-- ===== src/Compress/Model/Collision.antt =====
-- The second loop of `Encode` assigns where it should add, so symbols of one class share a code.
use rdx.Base.{
  ℕ, zero, suc, ◌+◌, ◌<◌, ◌≤◌, ◌≡◌, refl, sym, ap, ◌∙◌, Bool, true, false, arith, leb, ◌==◌,
  pass_below, pass_below-at, get_or-set, set, [], ◌∷◌, u16, u32,
}
use rdx.Compress.Model.{
  at, offsets, counts, increments, ModelSet, init, classify, first_interval, second_interval,
  last_below, update_probabilities, encode, pmax,
}
use rdx.Compress.Model.Classes.{classify-IsClass}
use rdx.Compress.Model.Totals.{apart}
use rdx.Compress.Model.Fresh.{init-IsValid}

fresh : ℕ → ℕ → Bool
fresh m k = at init.prob_pool (at offsets m + k) == at increments m

fresh_checked : (m k : ℕ) → m < 8 → k < at counts m → fresh m k ≡ true
unfolding init fresh pass_below
fresh_checked m k h l =
    pass_below-at (at counts m) (fresh m) k
      (pass_below-at 8 (λ j. pass_below (at counts j) (fresh j)) m refl h) l

fresh_total : at init.ptotals 0 ≡ 120
unfolding init
fresh_total = refl

fresh_pool :
    (m k : ℕ) → m < 8 → k < at counts m → at init.prob_pool (at offsets m + k) ≡ at increments m
unfolding fresh
fresh_pool m k h l = ground (arith, fresh_checked m k h l)

-- After the first-level update from the initial state, the counters of the other models are fresh.
after_first :
    (f m k : ℕ)
    → f < 10
    → 0 < m
    → m < 8
    → k < at counts m
    → at (update_probabilities 0 f init).prob_pool (at offsets m + k) ≡ at increments m
unfolding update_probabilities
after_first f m k hf pos h l =
    let v = init-IsValid in
    let total = get_or-set init.ptotals 0 0 (u32 (at init.ptotals 0 + 12)) 0 in
    let calm : leb pmax (at (set init.ptotals 0 (u32 (at init.ptotals 0 + 12))) 0) ≡ false =
      ground (arith, total, fresh_total, v.totals_size) in
    rw calm (
      ground (
        arith,
        v.pool_size,
        apart 0 m (omega arith) h (omega arith),
        fresh_pool m k h l,
        get_or-set init.prob_pool (0 + f) (at offsets m + k) (u16 (at init.prob_pool (0 + f) + 12))
            0,
      ))

second_interval_fresh :
    (t : ModelSet) (m k : ℕ)
    → ((j : ℕ) → j < at counts m → at t.prob_pool (at offsets m + j) ≡ at increments m)
    → k < at counts m
    → 1 ≤ k
    → second_interval m k t
      ≡ record { start = at increments m; size = at increments m; total = at t.ptotals m }
unfolding second_interval last_below
second_interval_fresh t m zero e h one = absurd (omega arith)
second_interval_fresh t m (suc k) e h one = ground (arith, e k, e (suc k))

encode_fresh :
    (a : ℕ)
    → a < 257
    → 1 ≤ (classify a).second_sym
    → let m = (classify a).second_model in
      (encode a init).0
      ≡ first_interval (m + 2) init
        ∷ record {
          start = at increments m;
          size = at increments m;
          total = at (update_probabilities 0 (m + 2) init).ptotals m;
        }
        ∷ []
unfolding encode
encode_fresh a h one =
    let c = (classify-IsClass a h).0 in
    let paired : ((classify a).second_model == 0) ≡ false = ground (arith, c.unset) in
    let pos : 0 < (classify a).second_model = ground arith in
    let head : (classify a).first_sym ≡ (classify a).second_model + 2 = omega (arith, c.follows) in
    rw (paired, head)
      (ap (λ i. first_interval ((classify a).second_model + 2) init ∷ i ∷ [])
        (second_interval_fresh _ _ _
          (λ j l. after_first _ _ j (omega (arith, c.first_lt)) pos c.model_lt l) (c.second_lt pos)
          one))

-- From the initial state, two symbols below 257 that are put in the same second model, neither of
-- them with its first counter, have the same code.
pub encode_collides :
    (a b : ℕ)
    → a < 257
    → b < 257
    → (classify a).second_model ≡ (classify b).second_model
    → 1 ≤ (classify a).second_sym
    → 1 ≤ (classify b).second_sym
    → (encode a init).0 ≡ (encode b init).0
encode_collides a b ha hb same one one' =
    encode_fresh a ha one
    ∙ ap
        (λ m.
          first_interval (m + 2) init
          ∷ record {
            start = at increments m;
            size = at increments m;
            total = at (update_probabilities 0 (m + 2) init).ptotals m;
          }
          ∷ [])
        same
    ∙ sym (encode_fresh b hb one')
