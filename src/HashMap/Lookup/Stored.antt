-- ===== src/HashMap/Lookup/Stored.antt =====
-- Lookup after the part of `Insert` of src/rdx/rdx_hashmap.hpp behind the growth of the table.
use mathlib.Core.Path.{subst}
use native.Mathlib.Decide.{ℕ_discrete}
use native.Mathlib.Nat.{mod-lt}
use rdx.Base.{
  ℕ, ◌+◌, ◌%◌, ◌<◌, ◌≤◌, ◌≡◌, ◌≢◌, sym, ap, ◌∙◌, inl, inr, true, false, some, arith, if◌then◌else◌,
  length, Bool-cases, length-set,
}
use rdx.HashMap.{
  filled, Entry, Keys, Table, is_filled, zero_entry, entry_element, is_match, find_element_index,
  get_element, store,
}
use rdx.HashMap.Probe.{kind_at}
use rdx.HashMap.Find.{probe-lt, IsValid, Holds, find_element_index-Holds}
use rdx.HashMap.Insert.{Stored, vacancy}
use rdx.HashMap.Rehash.Counts.{count-set, count-le}
use rdx.HashMap.Rehash.Moves.{count_filled, entry_filled}
use rdx.HashMap.Lookup.{Lawful, IsDistinct, get_element-Holds, get_element-agree}
use rdx.HashMap.Lookup.Matches.{is_key, match-both, match-via}

module _ {ℓ} {K V : Type ℓ} (keys : Keys K V) (lawful : Lawful keys) (ckey : K) (value : V)
    (hash : ℕ) (t u : Table K V) (s : Stored keys ckey value hash t u) (v : IsValid keys t.entries)
    (d : IsDistinct keys t.entries) where
  -- An entry for the key before is the one that was written.
  only : (q : ℕ) → Holds keys t.entries ckey hash q → s.index ≡ q
  unfolding IsDistinct
  only q h = elim s.before [
    | inl h' ↦ d ckey hash s.index q h' h
    | inr (_, none_holds) ↦ absurd (none_holds q h)
  ]

  -- another entry, before and after
  Holds-other :
      (ckey' : K) (hash' q : ℕ)
      → s.index ≢ q
      → Holds keys u.entries ckey' hash' q
      → Holds keys t.entries ckey' hash' q
  Holds-other ckey' hash' q ne h =
      let same = s.others q ne in
      record {
        inside = omega (arith, h.inside, s.size);
        full = subst (λ (x : Entry K V). is_filled x.element_type ≡ true) same h.full;
        matches = subst (λ (x : Entry K V). is_match keys ckey' hash' x ≡ true) same h.matches;
      }

  Holds-kept :
      (ckey' : K) (hash' q : ℕ)
      → s.index ≢ q
      → Holds keys t.entries ckey' hash' q
      → Holds keys u.entries ckey' hash' q
  Holds-kept ckey' hash' q ne h =
      let same = sym (s.others q ne) in
      record {
        inside = omega (arith, h.inside, s.size);
        full = subst (λ (x : Entry K V). is_filled x.element_type ≡ true) same h.full;
        matches = subst (λ (x : Entry K V). is_match keys ckey' hash' x ≡ true) same h.matches;
      }

  -- Another entry is for another key.
  alone :
      (ckey' : K) (hash' q : ℕ)
      → Holds keys u.entries ckey' hash' s.index
      → Holds keys u.entries ckey' hash' q
      → s.index ≡ q
  alone ckey' hash' q hp hq = elim (ℕ_discrete s.index q) [
    | yes same ↦ same
    | no ne ↦
        let k =
          match-both keys lawful ckey' hash' ckey hash (entry_element keys u.entries s.index)
            hp.matches s.there.matches in
        let h = Holds-other ckey' hash' q ne hq in
        only q (record {
          inside = h.inside;
          full = h.full;
          matches =
              match-via keys lawful ckey' hash' ckey hash (entry_element keys t.entries q) h.matches
                k;
        })
  ]

  pub IsDistinct-Stored : IsDistinct keys u.entries
  unfolding IsDistinct
  IsDistinct-Stored ckey' hash' p q hp hq = elim (ℕ_discrete s.index p) [
    | yes same ↦
        sym same ∙ alone ckey' hash' q (subst (Holds keys u.entries ckey' hash') (sym same) hp) hq
    | no np ↦ elim (ℕ_discrete s.index q) [
      | yes same ↦
          sym (alone ckey' hash' p (subst (Holds keys u.entries ckey' hash') (sym same) hq) hp)
          ∙ same
      | no nq ↦
          d ckey' hash' p q (Holds-other ckey' hash' p np hp) (Holds-other ckey' hash' q nq hq)
    ]
  ]

  -- The value is found for each key that is the same, and for the others what was found before.
  pub get_element-Stored :
      (ckey' : K) (hash' : ℕ)
      → get_element keys ckey' hash' u
        ≡ (if is_key keys ckey hash ckey' hash' then some value else get_element keys ckey' hash' t)
  get_element-Stored ckey' hash' = elim (Bool-cases (is_key keys ckey hash ckey' hash')) [
    | inl k ↦ rw k (
        get_element-Holds keys u ckey' hash' s.index s.valid IsDistinct-Stored (record {
          inside = s.there.inside;
          full = s.there.full;
          matches =
              match-via keys lawful ckey hash ckey' hash' (entry_element keys u.entries s.index)
                s.there.matches k;
        })
        ∙ ap some s.stored)
    | inr k ↦
        let back : (q : ℕ) → Holds keys u.entries ckey' hash' q → s.index ≢ q = λ q h e.
          let m =
            match-both keys lawful ckey hash ckey' hash' (entry_element keys u.entries s.index)
              s.there.matches (subst (Holds keys u.entries ckey' hash') (sym e) h).matches in
          cc (k, m) in
        let onto : (p : ℕ) → Holds keys t.entries ckey' hash' p → s.index ≢ p = λ p h e.
          elim s.before [
            | inl h' ↦
                let m =
                  match-both keys lawful ckey hash ckey' hash'
                    (entry_element keys t.entries s.index) h'.matches
                    (subst (Holds keys t.entries ckey' hash') (sym e) h).matches in
                cc (k, m)
            | inr (vacant, _) ↦
                let f = (subst (Holds keys t.entries ckey' hash') (sym e) h).full in cc (vacant, f)
          ] in
        rw k (
          get_element-agree keys t u ckey' hash' v d s.valid IsDistinct-Stored
            (λ p h.
              let ne = onto p h in
              (p, Holds-kept ckey' hash' p ne h, ap (λ (x : Entry K V). x.value) (s.others p ne)))
            (λ q h. (q, Holds-other ckey' hash' q (back q h) h)))
  ]

-- The load counts one entry more exactly where the key is new.
module _ {ℓ} {K V : Type ℓ} (keys : Keys K V) where
  pub store-load :
      (ckey : K) (value : V) (hash : ℕ) (t : Table K V) (p : ℕ)
      → IsValid keys t.entries
      → p < length t.entries
      → is_filled (kind_at keys t.entries p) ≡ false
      → t.load ≡ count_filled t.entries
      → length t.entries < 18446744073709551615
      → (store keys ckey value hash t).load ≡ count_filled (store keys ckey value hash t).entries
        × ((store keys ckey value hash t).load ≤ t.load + 1)
  unfolding store
  store-load ckey value hash t p v lt vacant same small =
      let q : ℕ = (find_element_index keys t.entries ckey hash).1 in
      let fewer = count-le entry_filled t.entries in
      elim (Bool-cases (find_element_index keys t.entries ckey hash).0) [
        | inl found ↦
            let h = (find_element_index-Holds keys t.entries ckey hash v).0 found in
            let e : Entry K V = record (entry_element keys t.entries q) { value = value } in
            let full = h.full in
            let c' = count-set entry_filled t.entries q e (zero_entry keys) h.inside in
            let c = rw full at c' in rw found (omega (arith, c, same), omega arith)
        | inr missing ↦
            let free = vacancy keys t.entries ckey hash p lt vacant missing in
            let some_place : 1 ≤ length t.entries = omega (arith, lt) in
            let inside : q < length t.entries = rw free.place (
              probe-lt (length t.entries) free.round (hash % length t.entries)
                (mod-lt hash some_place)) in
            let e : Entry K V = record {
              element_type = filled;
              hash = hash;
              key = ckey;
              value = value;
            } in
            let none = free.vacant in
            let c' = count-set entry_filled t.entries q e (zero_entry keys) inside in
            let c = rw none at c' in
            rw missing (omega (arith, c, same, fewer, small), omega (arith, same, fewer, small))
      ]

  pub length-store :
      (ckey : K) (value : V) (hash : ℕ) (t : Table K V)
      → length (store keys ckey value hash t).entries ≡ length t.entries
  unfolding store
  length-store ckey value hash t =
      elim (Bool-cases (find_element_index keys t.entries ckey hash).0) [
        | inl found ↦ rw found (length-set t.entries _ _)
        | inr missing ↦ rw missing (length-set t.entries _ _)
      ]
