-- ===== src/HashMap/Lookup/Removed.antt =====
-- Lookup after `RemoveEntry` of src/rdx/rdx_hashmap.hpp.
use mathlib.Core.Path.{subst}
use rdx.Base.{
  ℕ, ◌+◌, ◌<◌, ◌≤◌, ◌≡◌, ◌≢◌, sym, ap, inl, inr, true, none, arith, if◌then◌else◌, length,
  Bool-cases, set-set,
}
use rdx.HashMap.{
  deleted, Entry, Keys, Table, is_filled, zero_entry, entry_element, is_match, get_element,
  remove_entry, destroy_entry,
}
use rdx.HashMap.Probe.{kind_at}
use rdx.HashMap.Find.{IsValid, Holds}
use rdx.HashMap.Update.{remove_entry-IsValid}
use rdx.HashMap.Rehash.Counts.{count-set, count-le}
use rdx.HashMap.Rehash.Moves.{count_filled, entry_filled}
use rdx.HashMap.Lookup.{Lawful, IsDistinct, get_element-none, get_element-agree}
use rdx.HashMap.Lookup.Matches.{IsSound, is_key, match-both, match-via}

module _ {ℓ} {K V : Type ℓ} (keys : Keys K V) where
  -- One entry is deleted, and the others are as they were.
  record Removed (idx : ℕ) (t u : Table K V) : Type ℓ where
    pub valid : IsValid keys u.entries
    pub gone : kind_at keys u.entries idx ≡ deleted
    pub others : (p : ℕ) → idx ≢ p → entry_element keys u.entries p ≡ entry_element keys t.entries p
    pub size : length u.entries ≡ length t.entries

  module _ (lawful : Lawful keys) (t u : Table K V) (ckey : K) (hash idx : ℕ) (s : IsSound keys t)
      (h : Holds keys t.entries ckey hash idx) (r : Removed idx t u) where
    Holds-kept :
        (ckey' : K) (hash' q : ℕ)
        → idx ≢ q
        → Holds keys t.entries ckey' hash' q
        → Holds keys u.entries ckey' hash' q
    Holds-kept ckey' hash' q ne h' =
        let same = sym (r.others q ne) in
        record {
          inside = omega (arith, h'.inside, r.size);
          full = subst (λ (x : Entry K V). is_filled x.element_type ≡ true) same h'.full;
          matches = subst (λ (x : Entry K V). is_match keys ckey' hash' x ≡ true) same h'.matches;
        }

    Holds-left :
        (ckey' : K) (hash' q : ℕ)
        → Holds keys u.entries ckey' hash' q
        → (idx ≢ q) × Holds keys t.entries ckey' hash' q
    Holds-left ckey' hash' q h' =
        let ne : idx ≢ q = λ e.
          let f = subst (λ p. is_filled (kind_at keys u.entries p) ≡ true) (sym e) h'.full in
          let f' = subst (λ k. is_filled k ≡ true) r.gone f in cc f' in
        let same = r.others q ne in
        (
          ne,
          record {
            inside = omega (arith, h'.inside, r.size);
            full = subst (λ (x : Entry K V). is_filled x.element_type ≡ true) same h'.full;
            matches = subst (λ (x : Entry K V). is_match keys ckey' hash' x ≡ true) same h'.matches;
          },
        )

    IsDistinct-Removed : IsDistinct keys u.entries
    unfolding IsDistinct
    IsDistinct-Removed ckey' hash' p q hp hq =
        s.distinct ckey' hash' p q (Holds-left ckey' hash' p hp).1 (Holds-left ckey' hash' q hq).1

    get_element-Removed :
        (ckey' : K) (hash' : ℕ)
        → get_element keys ckey' hash' u
          ≡ (if is_key keys ckey hash ckey' hash' then none else get_element keys ckey' hash' t)
    unfolding IsDistinct
    get_element-Removed ckey' hash' = elim (Bool-cases (is_key keys ckey hash ckey' hash')) [
      | inl k ↦ rw k (
          get_element-none keys u ckey' hash' r.valid (λ q hq.
            let (ne, hq') = Holds-left ckey' hash' q hq in
            ne (
              s.distinct ckey' hash' idx q
                (record {
                  inside = h.inside;
                  full = h.full;
                  matches =
                      match-via keys lawful ckey hash ckey' hash' (entry_element keys t.entries idx)
                        h.matches k;
                })
                hq')))
      | inr k ↦ rw k (
          get_element-agree keys t u ckey' hash' s.valid s.distinct r.valid IsDistinct-Removed
            (λ p hp.
              let ne : idx ≢ p = λ e.
                let m =
                  match-both keys lawful ckey hash ckey' hash' (entry_element keys t.entries idx)
                    h.matches (subst (Holds keys t.entries ckey' hash') (sym e) hp).matches in
                cc (k, m) in
              (p, Holds-kept ckey' hash' p ne hp, ap (λ (x : Entry K V). x.value) (r.others p ne)))
            (λ q hq. (q, (Holds-left ckey' hash' q hq).1)))
    ]

  remove_entry-count :
      (idx : ℕ) (t : Table K V)
      → idx < length t.entries
      → is_filled (kind_at keys t.entries idx) ≡ true
      → count_filled (remove_entry keys idx t).entries + 1 ≡ count_filled t.entries
  unfolding remove_entry destroy_entry
  remove_entry-count idx t lt full =
      let gone : Entry K V = record (zero_entry keys) { element_type = deleted } in
      let c' = count-set entry_filled t.entries idx gone (zero_entry keys) lt in
      let c = rw full at c' in rw (full, set-set t.entries idx _ gone) (omega (arith, c))

  -- Removing the entry of a key, of a sound table, leaves a sound table in which the key is not
  -- found, and for the others what was found before.
  pub remove_entry-IsSound :
      (t : Table K V) (ckey : K) (hash idx : ℕ)
      → Lawful keys
      → IsSound keys t
      → length t.entries < 18446744073709551615
      → Holds keys t.entries ckey hash idx
      → IsSound keys (remove_entry keys idx t)
        × (length (remove_entry keys idx t).entries ≡ length t.entries)
        × ((remove_entry keys idx t).load ≤ t.load)
        × ((ckey' : K) (hash' : ℕ)
            → get_element keys ckey' hash' (remove_entry keys idx t) ≡ (
                if is_key keys ckey hash ckey' hash' then none else get_element keys ckey' hash' t))
  remove_entry-IsSound t ckey hash idx lawful s small h =
      let c = remove_entry-count idx t h.inside h.full in
      let fewer = count-le entry_filled t.entries in
      let load = s.load in
      let (valid, gone, others, size, less) =
        remove_entry-IsValid keys idx t s.valid h.inside h.full (omega (arith, c, load))
          (omega (arith, load, fewer, small)) in
      let u : Table K V = remove_entry keys idx t in
      let r : Removed idx t u = record {
        valid = valid;
        gone = gone;
        others = others;
        size = size;
      } in
      (
        record {
          valid = valid;
          distinct = IsDistinct-Removed lawful t u ckey hash idx s h r;
          load = omega (arith, load, less, c);
        },
        size,
        omega (arith, less),
        get_element-Removed lawful t u ckey hash idx s h r,
      )
