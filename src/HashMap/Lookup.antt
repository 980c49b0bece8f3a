-- ===== src/HashMap/Lookup.antt =====
-- `GetElement` of src/rdx/rdx_hashmap.hpp on the tables that the operations leave.
use mathlib.Core.Path.{subst}
use native.Mathlib.Decide.{dec_lt}
pub mod Matches
pub mod Stored
pub mod Removed
pub mod Replaced
use rdx.Base.{
  ℕ, ◌%◌, ◌<◌, ◌≤◌, ◌≡◌, refl, sym, ap, ◌∙◌, ◌⊎◌, inl, inr, Bool, true, false, ◌&&◌, List, Option,
  none, some, ◌==◌, arith, if◌then◌else◌, length, Bool-cases,
}
use rdx.HashMap.{
  ElementType, empty, deleted, contains_data, filled, loose, Entry, Keys, Table, is_filled,
  is_empty, is_deleted, zero_entry, entry_element, is_match, find_element_index, get_element,
}
use rdx.HashMap.Probe.{kind_at}
use rdx.HashMap.Find.{is_settled, IsValid, Holds, find_element_index-Holds}
use rdx.HashMap.Rehash.{is_loose}
use rdx.HashMap.Rehash.Prefix.{get_or-past}
use rdx.HashMap.Rehash.Moves.{is_used, Same, Rearranged}

-- `CompareKey` is an equivalence.
pub record Lawful {ℓ} {K V : Type ℓ} (keys : Keys K V) : Type ℓ where
  pub same : (k : K) → keys.compare_key k k ≡ true
  pub turned : (a b : K) → keys.compare_key a b ≡ true → keys.compare_key b a ≡ true
  pub joined :
      (a b c : K)
      → keys.compare_key a b ≡ true
      → keys.compare_key b c ≡ true
      → keys.compare_key a c ≡ true

module _ {ℓ} {K V : Type ℓ} (keys : Keys K V) where
  -- No two entries in use have a hash and a key in common.
  unfoldable pub IsDistinct : List (Entry K V) → Type ℓ
  IsDistinct entries =
      (ckey : K) (hash p q : ℕ)
      → Holds keys entries ckey hash p
      → Holds keys entries ckey hash q
      → p ≡ q

  pub filled_inside :
      (entries : List (Entry K V)) (p : ℕ)
      → is_used (kind_at keys entries p) ≡ true
      → p < length entries
  filled_inside entries p f = elim (dec_lt p (length entries)) [
    | yes lt ↦ lt
    | no ge ↦
        let past = get_or-past p entries (zero_entry keys) (omega (arith, ge)) in
        let f' = subst (λ (x : Entry K V). is_used x.element_type ≡ true) past f in cc f'
  ]

  pub all_settled :
      (entries : List (Entry K V))
      → IsValid keys entries
      → (p : ℕ) → is_settled (kind_at keys entries p) ≡ true
  all_settled entries v p = elim (dec_lt p (length entries)) [
    | yes lt ↦ v.settled p lt
    | no ge ↦
        subst (λ (x : Entry K V). is_settled x.element_type ≡ true)
          (sym (get_or-past p entries (zero_entry keys) (omega (arith, ge)))) refl
  ]

  -- What `GetElement` returns: the value of an entry with the hash and the key, or none where there
  -- is none.
  pub get_element-Holds :
      (t : Table K V) (ckey : K) (hash p : ℕ)
      → IsValid keys t.entries
      → IsDistinct t.entries
      → Holds keys t.entries ckey hash p
      → get_element keys ckey hash t ≡ some (entry_element keys t.entries p).value
  unfolding get_element IsDistinct
  get_element-Holds t ckey hash p v d h =
      let (sound, complete) = find_element_index-Holds keys t.entries ckey hash v in
      let found = complete p h in
      let same = d ckey hash _ p (sound found) h in
      rw found (ap (λ i. some (entry_element keys t.entries i).value) same)

  pub get_element-none :
      (t : Table K V) (ckey : K) (hash : ℕ)
      → IsValid keys t.entries
      → ((p : ℕ) → ¬ (Holds keys t.entries ckey hash p))
      → get_element keys ckey hash t ≡ none
  unfolding get_element
  get_element-none t ckey hash v none_holds =
      elim (Bool-cases (find_element_index keys t.entries ckey hash).0) [
        | inl found ↦
            absurd (none_holds _ ((find_element_index-Holds keys t.entries ckey hash v).0 found))
        | inr missing ↦ rw missing refl
      ]

  pub lookup_cases :
      (entries : List (Entry K V)) (ckey : K) (hash : ℕ)
      → IsValid keys entries
      → ((p : ℕ) × Holds keys entries ckey hash p) ⊎ ((p : ℕ) → ¬ (Holds keys entries ckey hash p))
  lookup_cases entries ckey hash v =
      let (sound, complete) = find_element_index-Holds keys entries ckey hash v in
      elim (Bool-cases (find_element_index keys entries ckey hash).0) [
        | inl found ↦ inl (_, sound found)
        | inr missing ↦ inr (λ p h. let found = complete p h in cc (missing, found))
      ]

  -- Two tables agree on a key where their entries for it agree.
  pub get_element-agree :
      (t u : Table K V) (ckey : K) (hash : ℕ)
      → IsValid keys t.entries
      → IsDistinct t.entries
      → IsValid keys u.entries
      → IsDistinct u.entries
      → ((p : ℕ)
          → Holds keys t.entries ckey hash p
          → (q : ℕ) × Holds keys u.entries ckey hash q
            × ((entry_element keys u.entries q).value ≡ (entry_element keys t.entries p).value))
      → ((q : ℕ) → Holds keys u.entries ckey hash q → (p : ℕ) × Holds keys t.entries ckey hash p)
      → get_element keys ckey hash u ≡ get_element keys ckey hash t
  get_element-agree t u ckey hash vt dt vu du onto back =
      elim (lookup_cases t.entries ckey hash vt) [
        | inl (p, h) ↦
            let (q, h', value) = onto p h in
            get_element-Holds u ckey hash q vu du h'
            ∙ ap some value
            ∙ sym (get_element-Holds t ckey hash p vt dt h)
        | inr none_holds ↦
            get_element-none u ckey hash vu (λ q h. let (p, h') = back q h in none_holds p h')
            ∙ sym (get_element-none t ckey hash vt none_holds)
      ]

  used-filled : (k : ElementType) → is_settled k ≡ true → is_used k ≡ true → is_filled k ≡ true
  used-filled k s u = ground arith

  filled-used : (k : ElementType) → is_filled k ≡ true → is_used k ≡ true
  filled-used k f = ground arith

  -- An entry for a key is one before the rearrangement, with the same value.
  pub Holds-Rearranged :
      (a b : List (Entry K V)) (ckey : K) (hash p : ℕ) (r : Rearranged keys a b)
      → IsValid keys a
      → Holds keys b ckey hash p
      → Holds keys a ckey hash (r.from p)
  Holds-Rearranged a b ckey hash p r v h =
      let used = filled-used (kind_at keys b p) h.full in
      let used' = sym (r.used p) ∙ used in
      let inside = filled_inside a (r.from p) used' in
      let (same_hash, same_key, _) = r.same p used in
      record {
        inside = inside;
        full = used-filled _ (v.settled (r.from p) inside) used';
        matches = rw (sym same_hash, sym same_key) h.matches;
      }

  pub Rearranged-sym : (a b : List (Entry K V)) → Rearranged keys a b → Rearranged keys b a
  Rearranged-sym a b r = record {
    from = r.to;
    to = r.from;
    from-to = r.to-from;
    to-from = r.from-to;
    used = λ p. sym (
        subst (λ q. is_used (kind_at keys b (r.to p)) ≡ is_used (kind_at keys a q)) (r.from-to p)
          (r.used (r.to p)));
    same = λ p u.
        let used =
          subst (λ q. is_used (kind_at keys b (r.to p)) ≡ is_used (kind_at keys a q)) (r.from-to p)
            (r.used (r.to p)) in
        let (h, k, v) =
          subst (λ q. Same (entry_element keys b (r.to p)) (entry_element keys a q)) (r.from-to p)
            (r.same (r.to p) (used ∙ u)) in
        (sym h, sym k, sym v);
  }

  pub IsDistinct-Rearranged :
      (a b : List (Entry K V)) → IsValid keys a → Rearranged keys a b → IsDistinct a → IsDistinct b
  unfolding IsDistinct
  IsDistinct-Rearranged a b v r d ckey hash p q hp hq =
      let same =
        d ckey hash (r.from p) (r.from q) (Holds-Rearranged a b ckey hash p r v hp)
          (Holds-Rearranged a b ckey hash q r v hq) in
      sym (r.to-from p) ∙ ap r.to same ∙ r.to-from q

  -- `GetElement` returns the same of a rearranged table.
  pub get_element-Rearranged :
      (t u : Table K V) (ckey : K) (hash : ℕ)
      → IsValid keys t.entries
      → IsDistinct t.entries
      → IsValid keys u.entries
      → Rearranged keys t.entries u.entries
      → get_element keys ckey hash u ≡ get_element keys ckey hash t
  get_element-Rearranged t u ckey hash vt dt vu r =
      let back = Rearranged-sym t.entries u.entries r in
      get_element-agree t u ckey hash vt dt vu (IsDistinct-Rearranged t.entries u.entries vt r dt)
        (λ p h.
          let (_, _, value) = back.same p (filled-used _ h.full) in
          (back.from p, Holds-Rearranged u.entries t.entries ckey hash p back vu h, sym value))
        (λ q h. (r.from q, Holds-Rearranged t.entries u.entries ckey hash q r vt h))
