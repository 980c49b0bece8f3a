-- ===== src/HashMap/Rehash/Step.antt =====
-- One move of an entry by `Rehash` of src/rdx/rdx_hashmap.hpp.
use mathlib.Core.Path.{subst}
use native.Mathlib.Decide.{ℕ_discrete}
use rdx.Base.{
  ℕ, ◌%◌, ◌<◌, ◌≤◌, ◌≡◌, ◌≢◌, refl, sym, ◌∙◌, ◌⊎◌, inl, inr, true, false, List, arith, length,
}
use rdx.HashMap.{Entry, Keys, is_filled, entry_element}
use rdx.HashMap.Probe.{probe, kind_at}
use rdx.HashMap.Rehash.{is_loose, move_entry}
use rdx.HashMap.Rehash.Swaps.{marked, moved_here, moved_back, moved_other}
use rdx.HashMap.Rehash.Settle.{
  is_rehashing, loose-not_filled, Placed, start_of, Settling, Destination,
}

module _ {ℓ} {K V : Type ℓ} (keys : Keys K V) (new_count i old_count d : ℕ)
    (entries : List (Entry K V)) (li : i < length entries) (ld : d < length entries)
    (l : is_loose (kind_at keys entries i) ≡ true)
    (vacant : is_filled (kind_at keys entries d) ≡ false) where
  abbrev moved : List (Entry K V)
  moved = move_entry keys i entries d

  moved_at :
      (p : ℕ)
      → (d ≡ p)
        ⊎ (((i ≡ p) × (entry_element keys moved p ≡ entry_element keys entries d))
            ⊎ ((i ≢ p) × (entry_element keys moved p ≡ entry_element keys entries p)))
  moved_at p = elim (ℕ_discrete d p) [
    | yes same ↦ inl same
    | no nd ↦ elim (ℕ_discrete i p) [
      | yes same ↦ inr (
          inl (
            same,
            subst (λ q. entry_element keys moved q ≡ entry_element keys entries d) same
                (moved_back keys i d entries li ld (λ e. nd (sym e ∙ same))),
          ))
      | no ni ↦ inr (inr (ni, moved_other keys i d p entries li ld ni nd))
    ]
  ]

  -- a property that the mark gives
  by_mark :
      (P : Entry K V → Type 0) (p : ℕ)
      → P (marked keys entries i)
      → d ≡ p
      → P (entry_element keys moved p)
  by_mark P p h e =
      subst (λ q. P (entry_element keys moved q)) e
        (subst P (sym (moved_here keys i d entries li ld)) h)

  -- What is filled stays filled.
  filled-moved :
      (p : ℕ) → is_filled (kind_at keys entries p) ≡ true → is_filled (kind_at keys moved p) ≡ true
  filled-moved p f = elim (moved_at p) [
    | inl e ↦ by_mark (λ (x : Entry K V). is_filled x.element_type ≡ true) p refl e
    | inr (inl (e, k)) ↦
        let f' = subst (λ q. is_filled (kind_at keys entries q) ≡ true) (sym e) f in
        let not_filled = loose-not_filled (kind_at keys entries i) l in cc (not_filled, f')
    | inr (inr (ni, k)) ↦ subst (λ (x : Entry K V). is_filled x.element_type ≡ true) (sym k) f
  ]

  Placed-moved :
      (start p : ℕ) → Placed keys new_count entries start p → Placed keys new_count moved start p
  Placed-moved start p h = record {
    round = h.round;
    below = h.below;
    place = h.place;
    before = λ j lt. filled-moved (probe new_count j start) (h.before j lt);
  }

  Placed-here :
      Destination keys new_count entries (start_of keys new_count entries i) new_count d
      → Placed keys new_count moved (start_of keys new_count entries i) d
  Placed-here h = record {
    round = h.round;
    below = h.below;
    place = h.place;
    before = λ j lt.
        filled-moved (probe new_count j (start_of keys new_count entries i)) (h.before j lt);
  }

  -- A move keeps the invariant of the loops.
  pub Settling-moved :
      Settling keys new_count i old_count entries
      → Destination keys new_count entries (start_of keys new_count entries i) new_count d
      → Settling keys new_count i old_count moved
  Settling-moved s h = record {
    kinds = λ p. elim (moved_at p) [
      | inl e ↦ by_mark (λ (x : Entry K V). is_rehashing x.element_type ≡ true) p refl e
      | inr (inl (e, k)) ↦
          subst (λ (x : Entry K V). is_rehashing x.element_type ≡ true) (sym k) (s.kinds d)
      | inr (inr (ni, k)) ↦
          subst (λ (x : Entry K V). is_rehashing x.element_type ≡ true) (sym k) (s.kinds p)
    ];
    waiting = λ p. elim (moved_at p) [
      | inl e ↦
          by_mark (λ (x : Entry K V). is_loose x.element_type ≡ true → (i ≤ p) × (p < old_count)) p
            (λ h. cc) e
      | inr (inl (e, k)) ↦ λ _. let w = s.waiting i l in (omega (arith, e), omega (arith, e, w.1))
      | inr (inr (ni, k)) ↦
          λ w. s.waiting p (subst (λ (x : Entry K V). is_loose x.element_type ≡ true) k w)
    ];
    placed = λ p. elim (moved_at p) [
      | inl e ↦ λ _.
          subst (λ q. Placed keys new_count moved (start_of keys new_count moved q) q) e
            (subst (λ (x : Entry K V). Placed keys new_count moved (x.hash % new_count) d)
              (sym (moved_here keys i d entries li ld)) (Placed-here h))
      | inr (inl (e, k)) ↦ λ f.
          let f' = subst (λ (x : Entry K V). is_filled x.element_type ≡ true) k f in cc (f', vacant)
      | inr (inr (ni, k)) ↦ λ f.
          subst (λ (x : Entry K V). Placed keys new_count moved (x.hash % new_count) p) (sym k)
            (Placed-moved (start_of keys new_count entries p) p
              (s.placed p (subst (λ (x : Entry K V). is_filled x.element_type ≡ true) k f)))
    ];
  }
