-- ===== src/HashMap/Rehash/Whole.antt =====
-- `Rehash` of src/rdx/rdx_hashmap.hpp as a whole.
use mathlib.Core.Path.{subst}
use native.Mathlib.Decide.{dec_lt}
use native.Mathlib.Nat.{mod-lt}
use rdx.Base.{ℕ, ◌<◌, ◌≤◌, ◌≡◌, refl, sym, ap, ◌∙◌, Bool, true, false, List, arith, length, take}
use rdx.Base.Run.{ok}
use rdx.HashMap.{ElementType, Entry, Keys, is_filled, is_empty, zero_entry, entry_element}
use rdx.HashMap.Probe.{kind_at, filled-kinds}
use rdx.HashMap.Find.{probe-lt, is_settled, IsReached, IsValid}
use rdx.HashMap.Rehash.{is_loose, rehash, loosen}
use rdx.HashMap.Rehash.Counts.{count-none}
use rdx.HashMap.Rehash.Moves.{
  is_used, count_filled, entry_filled, entry_loose, Rearranged, Rearranged-in_place,
  Rearranged-trans, Same-refl,
}
use rdx.HashMap.Rehash.Settle.{is_rehashing, Settling, start_of}
use rdx.HashMap.Rehash.Loops.{settle_entries-ok}
use rdx.HashMap.Rehash.Prefix.{
  length-take, get_or-take, get_or-past, count-take, Settling-loosen, Rearranged-loosen,
  counts-loosen,
}

module _ {ℓ} {K V : Type ℓ} (keys : Keys K V) where
  -- A valid array of another number of entries, with the same entries in use.
  pub record Rehashed (new_count : ℕ) (a b : List (Entry K V)) : Type ℓ where
    pub size : length b ≡ new_count
    pub valid : IsValid keys b
    pub rearranged : Rearranged keys a b
    pub load : count_filled b ≡ count_filled a

  -- After the loops, no entry is loose.
  module _ (new_count old_count : ℕ) (b : List (Entry K V)) (inside : new_count ≤ length b)
      (s : Settling keys new_count old_count old_count b) where
    abbrev prefix : List (Entry K V)
    prefix = take new_count b

    done : (p : ℕ) → is_loose (kind_at keys b p) ≡ false
    done p = not_loose (is_loose (kind_at keys b p)) (s.waiting p)
      where
        not_loose : (l : Bool) → (l ≡ true → (old_count ≤ p) × (p < old_count)) → l ≡ false
        not_loose true h = let w = h refl in absurd (omega (arith, w.0, w.1))
        not_loose false h = refl

    filled_inside : (p : ℕ) → is_filled (kind_at keys b p) ≡ true → p < new_count
    filled_inside p f =
        let h = s.placed p f in
        let some_place : 1 ≤ new_count = omega (arith, h.below) in
        subst (λ q. q < new_count) h.place
          (probe-lt new_count h.round (start_of keys new_count b p)
            (mod-lt (entry_element keys b p).hash some_place))

    outside : (p : ℕ) → new_count ≤ p → is_filled (kind_at keys b p) ≡ false
    outside p l = not_filled (is_filled (kind_at keys b p)) (filled_inside p)
      where
        not_filled : (l : Bool) → (l ≡ true → p < new_count) → l ≡ false
        not_filled true h = let w = h refl in absurd (omega (arith, l, w))
        not_filled false h = refl

    get-prefix : (p : ℕ) → p < new_count → entry_element keys prefix p ≡ entry_element keys b p
    get-prefix p lt = get_or-take new_count p b (zero_entry keys) lt

    length-prefix : length prefix ≡ new_count
    length-prefix = length-take new_count b inside

    unused_past :
        (p : ℕ)
        → new_count ≤ p
        → (is_used (kind_at keys prefix p) ≡ false) × (is_used (kind_at keys b p) ≡ false)
    unused_past p l = (
      ap (λ (x : Entry K V). is_used x.element_type)
          (get_or-past p prefix (zero_entry keys) (omega (arith, length-prefix, l))),
      let f = outside p l in let d = done p in rw (f, d) refl,
    )

    pub Rearranged-prefix : Rearranged keys b prefix
    Rearranged-prefix =
        Rearranged-in_place keys b prefix
          (λ p. elim (dec_lt p new_count) [
            | yes lt ↦ ap (λ (x : Entry K V). is_used x.element_type) (get-prefix p lt)
            | no ge ↦ let (h, h') = unused_past p (omega (arith, ge)) in h ∙ sym h'
          ])
          (λ p u. elim (dec_lt p new_count) [
            | yes lt ↦
                Same-refl (entry_element keys prefix p) (entry_element keys b p) (get-prefix p lt)
            | no ge ↦ let (h, h') = unused_past p (omega (arith, ge)) in cc (h, u)
          ])

    rehashing-settled :
        (k : ElementType) → is_rehashing k ≡ true → is_loose k ≡ false → is_settled k ≡ true
    rehashing-settled k h l = ground arith

    IsReached-prefix :
        (p : ℕ) → p < new_count → is_filled (kind_at keys b p) ≡ true → IsReached keys prefix p
    IsReached-prefix p lt f =
        let h = s.placed p f in
        let same = ap (λ (x : Entry K V). x.hash) (get-prefix p lt) in
        let some_place : 1 ≤ new_count = omega (arith, lt) in
        let start_below = mod-lt (entry_element keys b p).hash some_place in
        record {
          round = h.round;
          below = rw length-prefix h.below;
          place = rw (length-prefix, same) h.place;
          before = λ j l.
              rw (length-prefix, same)
                (subst (λ (x : Entry K V). is_empty x.element_type ≡ false)
                  (sym
                    (get-prefix _ (probe-lt new_count j (start_of keys new_count b p) start_below)))
                  (filled-kinds keys b _ (h.before j l)).0);
        }

    pub IsValid-prefix : IsValid keys prefix
    IsValid-prefix = record {
      settled = λ p l.
          subst (λ (x : Entry K V). is_settled x.element_type ≡ true)
            (sym (get-prefix p (omega (arith, l, length-prefix))))
            (rehashing-settled _ (s.kinds p) (done p));
      reached = λ p l f.
          let lt : p < new_count = omega (arith, l, length-prefix) in
          IsReached-prefix p lt
            (subst (λ (x : Entry K V). is_filled x.element_type ≡ true) (get-prefix p lt) f);
    }

  -- In an array whose entries are settled and whose entries from the old count on are empty, with
  -- both counts within the array and no more entries in use than the new count, the rehash ends
  -- with the fuel that it is given: the first entries, as many as the new count, are a valid table
  -- that has the entries in use of the array, each in one place.
  pub rehash-Rehashed :
      (old_count new_count : ℕ) (entries : List (Entry K V))
      → ((p : ℕ) → is_settled (kind_at keys entries p) ≡ true)
      → ((p : ℕ) → old_count ≤ p → is_empty (kind_at keys entries p) ≡ true)
      → old_count ≤ length entries
      → new_count ≤ length entries
      → count_filled entries ≤ new_count
      → (u : List (Entry K V)) × (rehash keys old_count new_count entries ≡ ok u)
        × (length u ≡ length entries)
        × Rehashed new_count entries (take new_count u)
  unfolding rehash
  rehash-Rehashed old_count new_count entries settled rest old_inside new_inside room =
      let (size, no_filled, all_loose) =
        counts-loosen keys old_count new_count entries settled rest in
      let (u, run, s) =
        settle_entries-ok keys new_count old_count old_count 0 (loosen old_count entries)
          (Settling-loosen keys old_count new_count entries settled rest)
          (record {
            old_inside = omega (arith, old_inside, size);
            new_inside = omega (arith, new_inside, size);
            enough = omega (arith, no_filled, all_loose, room);
          })
          (omega arith) in
      let inside : new_count ≤ length u = omega (arith, new_inside, size, s.size) in
      let none_loose =
        count-none entry_loose u (zero_entry keys) (done new_count old_count u inside s.settling) in
      let same_count =
        count-take entry_filled new_count u (zero_entry keys)
          (outside new_count old_count u inside s.settling) in
      (
        u,
        run,
        s.size ∙ size,
        record {
          size = length-take new_count u inside;
          valid = IsValid-prefix new_count old_count u inside s.settling;
          rearranged =
              Rearranged-trans keys entries u (take new_count u)
                (Rearranged-trans keys entries (loosen old_count entries) u
                  (Rearranged-loosen keys old_count new_count entries settled rest) s.rearranged)
                (Rearranged-prefix new_count old_count u inside s.settling);
          load = omega (arith, same_count, none_loose, s.total, no_filled, all_loose);
        },
      )
