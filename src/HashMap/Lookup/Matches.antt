-- ===== src/HashMap/Lookup/Matches.antt =====
-- Keys that have a hash and compare equal: `CompareKey` of src/rdx/rdx_hashmap.hpp.
use mathlib.Core.Path.{subst}
use rdx.Base.{ℕ, ◌≡◌, refl, sym, ap, ◌∙◌, Bool, true, false, ◌&&◌, ◌==◌, replicate, ==_iff}
use rdx.HashMap.{Entry, Keys, Table, is_filled, zero_entry, is_match}
use rdx.HashMap.Find.{IsValid, new-IsValid, get_or-replicate}
use rdx.HashMap.Rehash.Moves.{count_filled, entry_filled}
use rdx.HashMap.Rehash.Counts.{count-none}
use rdx.HashMap.Lookup.{Lawful, IsDistinct}

and-both : (a b : Bool) → (a && b) ≡ true → (a ≡ true) × (b ≡ true)
and-both true b h = (refl, h)
and-both false b h = cc

module _ {ℓ} {K V : Type ℓ} (keys : Keys K V) where
  -- What the operations keep: a valid table without two entries for a key, whose load is the number
  -- of entries in use.
  pub record IsSound (t : Table K V) : Type ℓ where
    pub valid : IsValid keys t.entries
    pub distinct : IsDistinct keys t.entries
    pub load : t.load ≡ count_filled t.entries

  -- a new table
  pub new-IsSound : (n : ℕ) → IsSound (record { entries = replicate n (zero_entry keys); load = 0 })
  unfolding IsDistinct
  new-IsSound n = record {
    valid = new-IsValid keys n;
    distinct = λ ckey hash p q h _.
        let f =
          subst (λ (x : Entry K V). is_filled x.element_type ≡ true)
            (get_or-replicate keys n p (zero_entry keys)) h.full in
        cc f;
    load = sym (
        count-none entry_filled (replicate n (zero_entry keys)) (zero_entry keys)
          (λ p. ap entry_filled (get_or-replicate keys n p (zero_entry keys))));
  }

  abbrev pub is_key : K → ℕ → K → ℕ → Bool
  is_key ckey hash ckey' hash' = hash == hash' && keys.compare_key ckey ckey'

  module _ (lawful : Lawful keys) (ckey : K) (hash : ℕ) (ckey' : K) (hash' : ℕ) (e : Entry K V)
      (m : is_match keys ckey hash e ≡ true) where
    pub match-both : is_match keys ckey' hash' e ≡ true → is_key ckey hash ckey' hash' ≡ true
    match-both m' =
        let (h, c) = and-both (hash == e.hash) (keys.compare_key ckey e.key) m in
        let (h', c') = and-both (hash' == e.hash) (keys.compare_key ckey' e.key) m' in
        let eh = (==_iff hash e.hash).0 h in
        let eh' = (==_iff hash' e.hash).0 h' in
        let same : (hash == hash') ≡ true = (==_iff hash hash').1 (eh ∙ sym eh') in
        let c'' = lawful.joined ckey e.key ckey' c (lawful.turned ckey' e.key c') in
        rw (same, c'') refl

    pub match-via : is_key ckey hash ckey' hash' ≡ true → is_match keys ckey' hash' e ≡ true
    match-via k =
        let (h, c) = and-both (hash == e.hash) (keys.compare_key ckey e.key) m in
        let (h', c') = and-both (hash == hash') (keys.compare_key ckey ckey') k in
        let eh = (==_iff hash e.hash).0 h in
        let eh' = (==_iff hash hash').0 h' in
        let same : (hash' == e.hash) ≡ true = (==_iff hash' e.hash).1 (sym eh' ∙ eh) in
        let c'' = lawful.joined ckey' ckey e.key (lawful.turned ckey ckey' c') c in
        rw (same, c'') refl

  pub is_key-turned :
      (lawful : Lawful keys) (ckey : K) (hash : ℕ) (ckey' : K) (hash' : ℕ)
      → is_key ckey hash ckey' hash' ≡ true
      → is_key ckey' hash' ckey hash ≡ true
  is_key-turned lawful ckey hash ckey' hash' k =
      let (h, c) = and-both (hash == hash') (keys.compare_key ckey ckey') k in
      let same : (hash' == hash) ≡ true = (==_iff hash' hash).1 (sym ((==_iff hash hash').0 h)) in
      let c' = lawful.turned ckey ckey' c in rw (same, c') refl
