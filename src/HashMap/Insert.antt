-- ===== src/HashMap/Insert.antt =====
-- The part of `Insert` of src/rdx/rdx_hashmap.hpp behind the growth of the table.
use mathlib.Core.Path.{subst}
use native.Mathlib.Nat.{mod-lt}
use rdx.Base.{
  u64, ℕ, ◌+◌, ◌%◌, ◌<◌, ◌≤◌, ◌≡◌, ◌≢◌, refl, sym, ap, ◌∙◌, ◌⊎◌, inl, inr, true, false, List, ◌==◌,
  arith, length, set, Bool-cases, length-set,
}
use rdx.HashMap.{
  ElementType, filled, Entry, Keys, Table, is_filled, is_empty, entry_element, is_match,
  find_element_index, store,
}
use rdx.HashMap.Probe.{probe, kind_at, Free, find_loop-Free, filled-kinds}
use rdx.HashMap.Cycle.{comes_to}
use rdx.HashMap.Find.{
  probe-lt, is_settled, IsReached, IsValid, Holds, find_is_loop, find_element_index-Holds,
  IsReached-set, set-filled,
}
use rdx.HashMap.Update.{get_set_here, get_set_other, IsValid-set}

equal_self : (n : ℕ) → (n == n) ≡ true
equal_self n = ground arith

settled-full : (k : ElementType) → is_filled k ≡ true → is_settled k ≡ true
settled-full k h = rw h refl

module _ {ℓ} {K V : Type ℓ} (keys : Keys K V) where
  -- Where some entry is not filled, the index for a key that is not found is one that is reached.
  pub vacancy :
      (entries : List (Entry K V)) (ckey : K) (hash p : ℕ)
      → p < length entries
      → is_filled (kind_at keys entries p) ≡ false
      → (find_element_index keys entries ckey hash).0 ≡ false
      → Free keys entries
          (length entries)
          (hash % length entries)
          (find_element_index keys entries ckey hash).1
  vacancy entries ckey hash p lt vacant =
      let some_entry : 1 ≤ length entries = omega (arith, lt) in
      let (j, below, place) =
        comes_to (length entries) (hash % length entries) p (mod-lt hash some_entry) lt in
      rw (find_is_loop keys entries ckey hash some_entry) (λ missing.
        elim (find_loop-Free keys entries ckey hash (length entries) (hash % length entries)
          missing) [
            | inl free ↦ free
            | inr all ↦ let f = all j below in cc (rw (place, vacant) at f)
          ])

  -- What `Insert` leaves behind its growth.
  pub record Stored (ckey : K) (value : V) (hash : ℕ) (t u : Table K V) : Type ℓ where
    pub valid : IsValid keys u.entries
    pub index : ℕ
    pub there : Holds keys u.entries ckey hash index
    pub before :
        Holds keys t.entries ckey hash index
        ⊎ ((is_filled (kind_at keys t.entries index) ≡ false)
            × ((q : ℕ) → ¬ (Holds keys t.entries ckey hash q)))
    pub stored : (entry_element keys u.entries index).value ≡ value
    pub others :
        (p : ℕ) → index ≢ p → entry_element keys u.entries p ≡ entry_element keys t.entries p
    pub size : length u.entries ≡ length t.entries

  pub kept-IsReached :
      (entries : List (Entry K V)) (q : ℕ) (e : Entry K V)
      → IsValid keys entries
      → q < length entries
      → is_filled (kind_at keys entries q) ≡ true
      → e ≡ record (entry_element keys entries q) { value = e.value }
      → IsReached keys (set entries q e) q
  kept-IsReached entries q e v lt full same =
      let kind = ap (λ (x : Entry K V). x.element_type) same in
      IsReached-set keys entries q q e lt
        (ap is_empty kind ∙ (filled-kinds keys entries (kind_at keys entries q) full).0)
        (ap (λ (x : Entry K V). x.hash) (get_set_here keys entries q e lt ∙ same))
        (v.reached q lt full)

  new-IsReached :
      (entries : List (Entry K V)) (hash q : ℕ) (e : Entry K V)
      → e.hash ≡ hash
      → is_empty e.element_type ≡ false
      → q < length entries
      → Free keys entries (length entries) (hash % length entries) q
      → IsReached keys (set entries q e) q
  new-IsReached entries hash q e h full lt free =
      let size = length-set entries q e in
      let own = ap (λ (x : Entry K V). x.hash) (get_set_here keys entries q e lt) ∙ h in
      record {
        round = free.round;
        below = rw size free.below;
        place = rw (size, own) (sym free.place);
        before = λ i l.
            rw (size, own)
              (set-filled keys entries q e (probe (length entries) i (hash % length entries)) lt
                full (filled-kinds keys entries _ (free.before i l)).0);
      }

  -- the entry for the key was written
  pub written :
      (ckey : K) (value : V) (hash : ℕ) (t u : Table K V) (q : ℕ) (e : Entry K V)
      → u.entries ≡ set t.entries q e
      → IsValid keys t.entries
      → q < length t.entries
      → is_filled e.element_type ≡ true
      → is_match keys ckey hash e ≡ true
      → e.value ≡ value
      → IsReached keys (set t.entries q e) q
      → Holds keys t.entries ckey hash q
        ⊎ ((is_filled (kind_at keys t.entries q) ≡ false)
            × ((r : ℕ) → ¬ (Holds keys t.entries ckey hash r)))
      → Stored ckey value hash t u
  written ckey value hash t u q e same v lt full matches has reached before =
      let here = get_set_here keys t.entries q e lt in
      let (kind, _) = filled-kinds keys t.entries e.element_type full in
      record {
        valid = rw same (
            IsValid-set keys t.entries q e v lt kind (settled-full e.element_type full)
              (λ _. reached));
        index = q;
        there = record {
          inside = rw (same, length-set t.entries q e) lt;
          full =
              rw same (subst (λ (x : Entry K V). is_filled x.element_type ≡ true) (sym here) full);
          matches =
              rw same
                (subst (λ (x : Entry K V). is_match keys ckey hash x ≡ true) (sym here) matches);
        };
        before = before;
        stored = rw same (ap (λ (x : Entry K V). x.value) here ∙ has);
        others = λ p ne. rw same (get_set_other keys t.entries q p e lt ne);
        size = rw same (length-set t.entries q e);
      }

  -- Where each key compares equal to itself, in a valid table with an entry that is not filled, the
  -- part of `Insert` behind the growth of the table leaves a valid table of the same size, in which
  -- one filled entry has the hash, the key and the value, and the other entries are as they were;
  -- that entry held the key before, or it was not filled and no entry held the key.
  pub store-Stored :
      ((k : K) → keys.compare_key k k ≡ true)
      → (ckey : K) (value : V) (hash : ℕ) (t : Table K V) (p : ℕ) → IsValid keys t.entries
      → p < length t.entries
      → is_filled (kind_at keys t.entries p) ≡ false
      → Stored ckey value hash t (store keys ckey value hash t)
  unfolding store
  store-Stored same_key ckey value hash t p v lt vacant =
      elim (Bool-cases (find_element_index keys t.entries ckey hash).0) [
        | inl found ↦
            let q : ℕ = (find_element_index keys t.entries ckey hash).1 in
            let h = (find_element_index-Holds keys t.entries ckey hash v).0 found in
            let e : Entry K V = record (entry_element keys t.entries q) { value = value } in
            rw found (
              written ckey value hash t (record t { entries = set t.entries q e }) q e refl v
                h.inside h.full h.matches refl (kept-IsReached t.entries q e v h.inside h.full refl)
                (inl h))
        | inr missing ↦
            let q : ℕ = (find_element_index keys t.entries ckey hash).1 in
            let free = vacancy t.entries ckey hash p lt vacant missing in
            let e : Entry K V = record {
              element_type = filled;
              hash = hash;
              key = ckey;
              value = value;
            } in
            rw missing (
              written ckey value hash t
                (record { entries = set t.entries q e; load = u64 (t.load + 1) }) q e refl v
                (rw free.place (
                  probe-lt (length t.entries) free.round (hash % length t.entries)
                    (mod-lt hash (omega (arith, lt)))))
                refl (rw (equal_self hash, same_key ckey) refl) refl
                (new-IsReached t.entries hash q e refl refl
                  (rw free.place (
                    probe-lt (length t.entries) free.round (hash % length t.entries)
                      (mod-lt hash (omega (arith, lt)))))
                  free)
                (inr (
                  free.vacant,
                  λ r h.
                      let found = (find_element_index-Holds keys t.entries ckey hash v).1 r h in
                      cc (missing, found),
                )))
      ]
