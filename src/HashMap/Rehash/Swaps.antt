-- ===== src/HashMap/Rehash/Swaps.antt =====
-- One entry goes to its destination: `SwapEntryData` and its call in `Rehash` of
-- src/rdx/rdx_hashmap.hpp.
use mathlib.Core.Path.{subst}
use native.Mathlib.Decide.{ℕ_discrete}
use rdx.Base.{
  ℕ, ◌+◌, ◌<◌, ◌≡◌, ◌≢◌, refl, sym, ap, ◌∙◌, inl, inr, Bool, true, false, List, ◌==◌, arith, length,
  set, Bool-cases, length-set, set-set,
}
use rdx.HashMap.{filled, Entry, Keys, zero_entry, entry_element}
use rdx.HashMap.Update.{get_set_here, get_set_other}
use rdx.HashMap.Rehash.{swap_entry_data, move_entry}
use rdx.HashMap.Rehash.Counts.{one_if, count, count-set}

module _ {ℓ} {K V : Type ℓ} (keys : Keys K V) where
  -- the entry as it is marked before the swap
  abbrev pub marked : List (Entry K V) → ℕ → Entry K V
  marked entries i = record (entry_element keys entries i) { element_type = filled }

  -- An entry moved to itself is marked, and else two entries are written.
  pub move_entry_here :
      (i : ℕ) (entries : List (Entry K V))
      → move_entry keys i entries i ≡ set entries i (marked entries i)
  unfolding move_entry swap_entry_data
  move_entry_here i entries = let same : (i == i) ≡ true = ground arith in rw same refl

  pub move_entry_other :
      (i d : ℕ) (entries : List (Entry K V))
      → i < length entries
      → i ≢ d
      → move_entry keys i entries d
        ≡ set (set entries i (entry_element keys entries d)) d (marked entries i)
  unfolding move_entry swap_entry_data
  move_entry_other i d entries lt ne =
      let differ : (i == d) ≡ false = ground arith in
      rw
        (
          differ,
          get_set_here keys entries i (marked entries i) lt,
          get_set_other keys entries i d (marked entries i) lt ne,
          set-set entries i,
        )
        refl

  pub length-move_entry :
      (i d : ℕ) (entries : List (Entry K V)) → length (move_entry keys i entries d) ≡ length entries
  unfolding move_entry swap_entry_data
  length-move_entry i d entries = elim (Bool-cases (i == d)) [
    | inl same ↦ rw same (length-set entries i _)
    | inr differ ↦ rw differ (length-set _ d _ ∙ length-set _ i _ ∙ length-set entries i _)
  ]

  -- What stands where after the move.
  pub moved_here :
      (i d : ℕ) (entries : List (Entry K V))
      → i < length entries
      → d < length entries
      → entry_element keys (move_entry keys i entries d) d ≡ marked entries i
  moved_here i d entries li ld = elim (ℕ_discrete i d) [
    | yes same ↦
        subst (λ j. entry_element keys (move_entry keys i entries j) j ≡ marked entries i) same
          (rw (move_entry_here i entries) (get_set_here keys entries i (marked entries i) li))
    | no ne ↦ rw (move_entry_other i d entries li ne) (
        get_set_here keys (set entries i (entry_element keys entries d)) d (marked entries i)
          (rw (length-set entries i (entry_element keys entries d)) ld))
  ]

  pub moved_back :
      (i d : ℕ) (entries : List (Entry K V))
      → i < length entries
      → d < length entries
      → i ≢ d
      → entry_element keys (move_entry keys i entries d) i ≡ entry_element keys entries d
  moved_back i d entries li ld ne = rw (move_entry_other i d entries li ne) (
      get_set_other keys (set entries i (entry_element keys entries d)) d i (marked entries i)
        (rw (length-set entries i (entry_element keys entries d)) ld) (λ e. ne (sym e))
      ∙ get_set_here keys entries i (entry_element keys entries d) li)

  pub moved_other :
      (i d p : ℕ) (entries : List (Entry K V))
      → i < length entries
      → d < length entries
      → i ≢ p
      → d ≢ p
      → entry_element keys (move_entry keys i entries d) p ≡ entry_element keys entries p
  moved_other i d p entries li ld ni nd = elim (ℕ_discrete i d) [
    | yes same ↦
        subst
          (λ j. entry_element keys (move_entry keys i entries j) p ≡ entry_element keys entries p)
          same
          (rw (move_entry_here i entries) (get_set_other keys entries i p (marked entries i) li ni))
    | no ne ↦ rw (move_entry_other i d entries li ne) (
        get_set_other keys (set entries i (entry_element keys entries d)) d p (marked entries i)
          (rw (length-set entries i (entry_element keys entries d)) ld) nd
        ∙ get_set_other keys entries i p (entry_element keys entries d) li ni)
  ]

  -- A move changes a count by what the mark changes.
  pub count-move_entry :
      (test : Entry K V → Bool) (i d : ℕ) (entries : List (Entry K V))
      → i < length entries
      → d < length entries
      → count test (move_entry keys i entries d) + one_if (test (entry_element keys entries i))
        ≡ count test entries + one_if (test (marked entries i))
  count-move_entry test i d entries li ld = elim (ℕ_discrete i d) [
    | yes same ↦
        subst
          (λ j.
            count test (move_entry keys i entries j) + one_if (test (entry_element keys entries i))
            ≡ count test entries + one_if (test (marked entries i)))
          same
          (rw (move_entry_here i entries)
            (count-set test entries i (marked entries i) (zero_entry keys) li))
    | no ne ↦
        let first = count-set test entries i (entry_element keys entries d) (zero_entry keys) li in
        let second =
          count-set test (set entries i (entry_element keys entries d)) d (marked entries i)
            (zero_entry keys) (rw (length-set entries i (entry_element keys entries d)) ld) in
        let between =
          ap (λ e. one_if (test e))
            (get_set_other keys entries i d (entry_element keys entries d) li ne) in
        rw (move_entry_other i d entries li ne) (omega (arith, first, second, between))
  ]
