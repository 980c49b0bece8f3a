-- ===== src/HashMap/Growth/Shrunk.antt =====
-- `Balance` of src/rdx/rdx_hashmap.hpp.
use mathlib.Core.Path.{subst}
use rdx.Base.{
  u64, ℕ, ◌*◌, ◌/◌, ◌<◌, ◌≤◌, ◌≡◌, refl, sym, ◌∙◌, inl, inr, true, ◌&&◌, ltb, arith, length, take,
  Bool-cases,
}
use rdx.Base.Run.{ok}
use rdx.HashMap.{Entry, Keys, Table, is_empty, zero_entry, get_element}
use rdx.HashMap.Rehash.Prefix.{get_or-past}
use rdx.HashMap.Rehash.Whole.{rehash-Rehashed}
use rdx.HashMap.Lookup.{IsDistinct-Rearranged, get_element-Rearranged, all_settled}
use rdx.HashMap.Lookup.Matches.{IsSound}
use rdx.HashMap.Growth.{balance}

-- the load is less than a half of the entries, where the test of `Balance` holds
half_is_enough :
    (l n : ℕ) → l < 72057594037927936 → (ltb 8 n && ltb n (u64 (l * 80) / 200)) ≡ true → n ≤ l / 2
half_is_enough l n small h = ground arith

module _ {ℓ} {K V : Type ℓ} (keys : Keys K V) where
  -- Balancing a sound table of less than 2 ^ 56 entries ends, with a sound table that is not
  -- larger, has the same load, and in which each key finds what it found.
  pub balance-IsSound :
      (t : Table K V)
      → IsSound keys t
      → length t.entries < 72057594037927936
      → (u : Table K V) × (balance keys t ≡ ok u)
        × IsSound keys u
        × (u.load ≡ t.load)
        × (length u.entries ≤ length t.entries)
        × ((ckey : K) (hash : ℕ) → get_element keys ckey hash u ≡ get_element keys ckey hash t)
  unfolding balance
  balance-IsSound t s small =
      elim (Bool-cases (ltb 8 t.load && ltb t.load (u64 (length t.entries * 80) / 200))) [
        | inr stays ↦ (t, rw stays refl, s, refl, omega arith, λ ckey hash. refl)
        | inl shrinks ↦
            let half = half_is_enough (length t.entries) t.load small shrinks in
            let load = s.load in
            let (w, run, _, r) =
              rehash-Rehashed keys (length t.entries) (length t.entries / 2) t.entries
                (all_settled keys t.entries s.valid)
                (λ p l.
                  subst (λ (x : Entry K V). is_empty x.element_type ≡ true)
                    (sym (get_or-past p t.entries (zero_entry keys) l)) refl)
                (omega arith) (omega arith) (omega (arith, half, load)) in
            let u : Table K V = record t { entries = take (length t.entries / 2) w } in
            let size = r.size in
            (
              u,
              rw (shrinks, run) refl,
              record {
                valid = r.valid;
                distinct =
                    IsDistinct-Rearranged keys t.entries u.entries s.valid r.rearranged s.distinct;
                load = s.load ∙ sym r.load;
              },
              refl,
              omega (arith, size),
              λ ckey hash.
                  get_element-Rearranged keys t u ckey hash s.valid s.distinct r.valid r.rearranged,
            )
      ]
