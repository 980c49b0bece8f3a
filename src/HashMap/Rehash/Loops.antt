-- ===== src/HashMap/Rehash/Loops.antt =====
-- The second loop of `Rehash` of src/rdx/rdx_hashmap.hpp ends.
use mathlib.Core.Path.{subst}
use native.Mathlib.Nat.{mod-lt}
use rdx.Base.{
  ℕ, zero, suc, ◌+◌, ◌<◌, ◌≤◌, ◌≡◌, ◌≢◌, refl, sym, ◌∙◌, inl, inr, true, false, List, arith, length,
  Bool-cases,
}
use rdx.Base.Run.{ok}
use rdx.HashMap.{Entry, Keys, is_filled, zero_entry, entry_element}
use rdx.HashMap.Probe.{kind_at}
use rdx.HashMap.Cycle.{comes_to}
use rdx.HashMap.Find.{probe-lt}
use rdx.HashMap.Rehash.{is_loose, find_destination, move_entry, settle_entry, settle_entries}
use rdx.HashMap.Rehash.Counts.{count-missing, count-some, count-le}
use rdx.HashMap.Rehash.Swaps.{length-move_entry}
use rdx.HashMap.Rehash.Moves.{
  count_filled, count_loose, entry_filled, entry_loose, Rearranged, Rearranged-refl,
  Rearranged-trans, Rearranged-move_entry, count-moved,
}
use rdx.HashMap.Rehash.Settle.{Settling, start_of, Destination, find_destination-ok}
use rdx.HashMap.Rehash.Step.{Settling-moved}

module _ {ℓ} {K V : Type ℓ} (keys : Keys K V) (new_count old_count : ℕ) where
  abbrev entries_in_use : List (Entry K V) → ℕ
  entries_in_use entries = count_filled entries + count_loose entries

  -- the array is long enough for both counts, and the new count for the entries in use
  pub record Fits (entries : List (Entry K V)) : Type 0 where
    pub old_inside : old_count ≤ length entries
    pub new_inside : new_count ≤ length entries
    pub enough : count_filled entries + count_loose entries ≤ new_count

  -- what the loops leave
  pub record Settled (i : ℕ) (a b : List (Entry K V)) : Type ℓ where
    pub settling : Settling keys new_count i old_count b
    pub rearranged : Rearranged keys a b
    pub size : length b ≡ length a
    pub total : count_filled b + count_loose b ≡ count_filled a + count_loose a

  Settled-trans :
      (i j : ℕ) (a b c : List (Entry K V)) → Settled i a b → Settled j b c → Settled j a c
  Settled-trans i j a b c r s = record {
    settling = s.settling;
    rearranged = Rearranged-trans keys a b c r.rearranged s.rearranged;
    size = s.size ∙ r.size;
    total = s.total ∙ r.total;
  }

  Settled-Fits : (i : ℕ) (a b : List (Entry K V)) → Fits a → Settled i a b → Fits b
  Settled-Fits i a b f s = record {
    old_inside = omega (arith, f.old_inside, s.size);
    new_inside = omega (arith, f.new_inside, s.size);
    enough = omega (arith, f.enough, s.total);
  }

  -- the loop ends: the entry is not loose
  Settled-here :
      (i : ℕ) (entries : List (Entry K V))
      → Settling keys new_count i old_count entries
      → is_loose (kind_at keys entries i) ≡ false
      → Settled (suc i) entries entries
  Settled-here i entries s l = record {
    settling = record {
      kinds = s.kinds;
      waiting = λ p w.
          let h = s.waiting p w in
          let ne : i ≢ p = λ e.
            let w' = subst (λ q. is_loose (kind_at keys entries q) ≡ true) (sym e) w in
            cc (l, w') in
          (omega (arith, h.0, ne), h.1);
      placed = s.placed;
    };
    rearranged = Rearranged-refl keys entries;
    size = refl;
    total = refl;
  }

  -- one more round: there is a destination, and the move keeps all that the loop needs
  destination :
      (i : ℕ) (entries : List (Entry K V))
      → Fits entries
      → i < length entries
      → is_loose (kind_at keys entries i) ≡ true
      → (d : ℕ) × (d < length entries)
        × (find_destination keys new_count new_count entries (start_of keys new_count entries i)
            ≡ ok d)
        × Destination keys new_count entries (start_of keys new_count entries i) new_count d
  destination i entries f li l =
      let some_loose = count-some entry_loose entries i (zero_entry keys) li l in
      let (p, below, vacant) =
        count-missing entry_filled entries new_count (zero_entry keys)
          (omega (arith, f.enough, some_loose)) f.new_inside in
      let some_place : 1 ≤ new_count = omega (arith, below) in
      let start_below = mod-lt (entry_element keys entries i).hash some_place in
      let (j, lt, e) = comes_to new_count (start_of keys new_count entries i) p start_below below in
      let (d, run, h) =
        find_destination-ok keys new_count new_count entries (start_of keys new_count entries i) j
          lt (subst (λ q. is_filled (kind_at keys entries q) ≡ false) (sym e) vacant) in
      let inside : d < new_count =
        subst (λ q. q < new_count) h.place
          (probe-lt new_count h.round (start_of keys new_count entries i) start_below) in
      (d, omega (arith, inside, f.new_inside), run, h)

  Settled-moved :
      (i d : ℕ) (entries : List (Entry K V))
      → Settling keys new_count i old_count entries
      → i < length entries
      → d < length entries
      → is_loose (kind_at keys entries i) ≡ true
      → Destination keys new_count entries (start_of keys new_count entries i) new_count d
      → Settled i entries (move_entry keys i entries d)
  Settled-moved i d entries s li ld l h =
      let (f, g) = count-moved keys i d entries li ld l in
      record {
        settling = Settling-moved keys new_count i old_count d entries li ld l h.vacant s h;
        rearranged = Rearranged-move_entry keys i d entries li ld l;
        size = length-move_entry keys i d entries;
        total = omega (arith, f, g);
      }

  -- More rounds than there are loose entries are enough.
  pub settle_entry-ok :
      (fuel i : ℕ) (entries : List (Entry K V))
      → Settling keys new_count i old_count entries
      → Fits entries
      → i < length entries
      → count_loose entries < fuel
      → (u : List (Entry K V)) × (settle_entry keys fuel new_count i entries ≡ ok u)
        × Settled (suc i) entries u
  unfolding settle_entry
  settle_entry-ok zero i entries = λ s f li fewer. absurd (omega (arith, fewer))
  settle_entry-ok (suc fuel) i entries = elim (Bool-cases (is_loose (kind_at keys entries i))) [
    | inr l ↦ rw l (λ s f li fewer. (entries, refl, Settled-here i entries s l))
    | inl l ↦ λ s f li fewer.
        let (d, ld, run, h) = destination i entries f li l in
        let (_, g) = count-moved keys i d entries li ld l in
        let m = Settled-moved i d entries s li ld l h in
        let (u, eq, r) =
          settle_entry-ok fuel i (move_entry keys i entries d) m.settling
            (Settled-Fits i entries (move_entry keys i entries d) f m) (omega (arith, li, m.size))
            (omega (arith, fewer, g)) in
        (u, rw (l, run) eq, Settled-trans i (suc i) entries (move_entry keys i entries d) u m r)
  ]

  pub settle_entries-ok :
      (count i : ℕ) (entries : List (Entry K V))
      → Settling keys new_count i old_count entries
      → Fits entries
      → i + count ≡ old_count
      → (u : List (Entry K V)) × (settle_entries keys count new_count i entries ≡ ok u)
        × Settled old_count entries u
  unfolding settle_entries
  settle_entries-ok zero i entries s f e = (
    entries,
    refl,
    record {
      settling = subst (λ j. Settling keys new_count j old_count entries) (omega (arith, e)) s;
      rearranged = Rearranged-refl keys entries;
      size = refl;
      total = refl;
    },
  )
  settle_entries-ok (suc count) i entries s f e =
      let fewer = count-le entry_loose entries in
      let (u, run, r) =
        settle_entry-ok (suc (length entries)) i entries s f (omega (arith, e, f.old_inside))
          (omega (arith, fewer)) in
      let next : suc i ≡ i + 1 = omega arith in
      let (w, run', r') =
        settle_entries-ok count (i + 1) u
          (subst (λ j. Settling keys new_count j old_count u) next r.settling)
          (Settled-Fits (suc i) entries u f r) (omega (arith, e)) in
      (w, rw run run', Settled-trans (suc i) old_count entries u w r r')
