-- ===== src/HashMap/Lookup/Replaced.antt =====
-- Lookup after `SetElement` of src/rdx/rdx_hashmap.hpp.
use rdx.Base.{
  ℕ, ◌≡◌, refl, sym, ap, ◌∙◌, inl, inr, true, Option, none, some, arith, if◌then◌else◌, length, set,
  Bool-cases, length-set,
}
use rdx.HashMap.{
  Entry, Keys, Table, zero_entry, entry_element, find_element_index, get_element, set_element,
}
use rdx.HashMap.Find.{find_element_index-Holds}
use rdx.HashMap.Insert.{Stored, written, kept-IsReached}
use rdx.HashMap.Rehash.Counts.{count-set}
use rdx.HashMap.Rehash.Moves.{entry_filled}
use rdx.HashMap.Lookup.{Lawful, get_element-Holds, get_element-none, lookup_cases}
use rdx.HashMap.Lookup.Matches.{IsSound, is_key, is_key-turned, match-via}
use rdx.HashMap.Lookup.Stored.{IsDistinct-Stored, get_element-Stored}

-- the value of a key that has one
abbrev pub replace_with {ℓ} : {V : Type ℓ} → V → Option V → Option V
replace_with value none = none
replace_with value (some old) = some value

module _ {ℓ} {K V : Type ℓ} (keys : Keys K V) where
  -- Keys that are the same find the same.
  get_element-is_key :
      (ckey : K) (hash : ℕ) (ckey' : K) (hash' : ℕ) (t : Table K V)
      → Lawful keys
      → IsSound keys t
      → is_key keys ckey hash ckey' hash' ≡ true
      → get_element keys ckey' hash' t ≡ get_element keys ckey hash t
  get_element-is_key ckey hash ckey' hash' t lawful s k =
      elim (lookup_cases keys t.entries ckey hash s.valid) [
        | inl (p, h) ↦
            let e = entry_element keys t.entries p in
            get_element-Holds keys t ckey' hash' p s.valid s.distinct (record {
              inside = h.inside;
              full = h.full;
              matches = match-via keys lawful ckey hash ckey' hash' e h.matches k;
            })
            ∙ sym (get_element-Holds keys t ckey hash p s.valid s.distinct h)
        | inr none_holds ↦
            let turned = is_key-turned keys lawful ckey hash ckey' hash' k in
            get_element-none keys t ckey' hash' s.valid (λ p h. none_holds p (record {
              inside = h.inside;
              full = h.full;
              matches =
                  match-via keys lawful ckey' hash' ckey hash (entry_element keys t.entries p)
                    h.matches turned;
            }))
            ∙ sym (get_element-none keys t ckey hash s.valid none_holds)
      ]

  -- What a key finds after its value was, or was not, replaced.
  replaced :
      (ckey : K) (value : V) (hash : ℕ) (t u : Table K V)
      → Lawful keys
      → IsSound keys t
      → (written_value : Option V)
      → replace_with value (get_element keys ckey hash t) ≡ written_value
      → ((ckey' : K) (hash' : ℕ)
          → get_element keys ckey' hash' u ≡ (
              if is_key keys ckey hash ckey' hash'
              then written_value
              else get_element keys ckey' hash' t))
      → (ckey' : K) (hash' : ℕ)
      → get_element keys ckey' hash' u ≡ (
          if is_key keys ckey hash ckey' hash'
          then replace_with value (get_element keys ckey' hash' t)
          else get_element keys ckey' hash' t)
  replaced ckey value hash t u lawful s w same found ckey' hash' =
      let f = found ckey' hash' in
      elim (Bool-cases (is_key keys ckey hash ckey' hash')) [
        | inl k ↦
            let g = get_element-is_key ckey hash ckey' hash' t lawful s k in
            let f' = rw k at f in rw k (f' ∙ sym (ap (replace_with value) g ∙ same))
        | inr k ↦ let f' = rw k at f in rw k f'
      ]

  -- A key that is not found stays so.
  pub stays :
      (ckey : K) (hash : ℕ) (t : Table K V)
      → Lawful keys
      → IsSound keys t
      → get_element keys ckey hash t ≡ none
      → (ckey' : K) (hash' : ℕ)
      → get_element keys ckey' hash' t
        ≡ (if is_key keys ckey hash ckey' hash' then none else get_element keys ckey' hash' t)
  stays ckey hash t lawful s none_found ckey' hash' =
      elim (Bool-cases (is_key keys ckey hash ckey' hash')) [
        | inl k ↦ rw k (get_element-is_key ckey hash ckey' hash' t lawful s k ∙ none_found)
        | inr k ↦ rw k refl
      ]

  -- `SetElement` of a sound table with keys that compare by an equivalence leaves a sound table of
  -- the same size and load, in which the key finds the value where it found one before, and each
  -- other key finds what it found.
  pub set_element-IsSound :
      (ckey : K) (value : V) (hash : ℕ) (t : Table K V)
      → Lawful keys
      → IsSound keys t
      → let u = (set_element keys ckey value hash t).1 in
        IsSound keys u
        × (length u.entries ≡ length t.entries)
        × (u.load ≡ t.load)
        × ((ckey' : K) (hash' : ℕ)
            → get_element keys ckey' hash' u ≡ (
                if is_key keys ckey hash ckey' hash'
                then replace_with value (get_element keys ckey' hash' t)
                else get_element keys ckey' hash' t))
  unfolding set_element
  set_element-IsSound ckey value hash t lawful s =
      let (sound, complete) = find_element_index-Holds keys t.entries ckey hash s.valid in
      let q : ℕ = (find_element_index keys t.entries ckey hash).1 in
      elim (Bool-cases (find_element_index keys t.entries ckey hash).0) [
        | inl found ↦
            let h = sound found in
            let e : Entry K V = record (entry_element keys t.entries q) { value = value } in
            let u : Table K V = record t { entries = set t.entries q e } in
            let st : Stored keys ckey value hash t u =
              written keys ckey value hash t u q e refl s.valid h.inside h.full h.matches refl
                (kept-IsReached keys t.entries q e s.valid h.inside h.full refl) (inl h) in
            let full = h.full in
            let c' = count-set entry_filled t.entries q e (zero_entry keys) h.inside in
            let load = s.load in
            rw found (
              record {
                valid = st.valid;
                distinct = IsDistinct-Stored keys lawful ckey value hash t u st s.valid s.distinct;
                load = omega (arith, c', load);
              },
              length-set t.entries q e,
              refl,
              replaced ckey value hash t u lawful s (some value)
                  (ap (replace_with value)
                    (get_element-Holds keys t ckey hash q s.valid s.distinct h))
                  (get_element-Stored keys lawful ckey value hash t u st s.valid s.distinct),
            )
        | inr missing ↦
            let none_found =
              get_element-none keys t ckey hash s.valid
                (λ p h. let f = complete p h in cc (missing, f)) in
            rw missing (
              s,
              refl,
              refl,
              replaced ckey value hash t t lawful s none (ap (replace_with value) none_found)
                  (stays ckey hash t lawful s none_found),
            )
      ]
