-- ===== src/HashMap/Find.antt =====
-- Lookup: `FindElementIndex` of src/rdx/rdx_hashmap.hpp, on the tables that the operations leave.
use mathlib.Core.Path.{subst}
use native.Mathlib.Nat.{mod-lt}
use rdx.Base.{
  ℕ, zero, suc, ◌%◌, ◌<◌, ◌≤◌, ◌≡◌, refl, sym, ap, ◌∙◌, Bool, true, false, ◌||◌, List, [], ◌∷◌,
  none, ◌==◌, arith, if◌then◌else◌, length, get_or, set, replicate, length-set, get_or-set,
}
use rdx.HashMap.{
  ElementType, Entry, Keys, is_filled, is_empty, is_deleted, zero_entry, entry_element, is_match,
  next_index, find_loop, find_element_index,
}
use rdx.HashMap.Probe.{probe, kind_at, at_round, Meets, Lands, find_loop-Meets, find_loop-Lands}

next_index-lt : (n idx : ℕ) → idx < n → next_index n idx < n
next_index-lt n idx h = ground arith

pub probe-lt : (n j idx : ℕ) → idx < n → probe n j idx < n
probe-lt n zero idx h = h
probe-lt n (suc j) idx h = probe-lt n j (next_index n idx) (next_index-lt n idx h)

-- none of the kinds that stand in a table only while it is rebuilt
abbrev pub is_settled : ElementType → Bool
is_settled k = is_filled k || is_empty k || is_deleted k

settled-filled :
    (k : ElementType)
    → is_settled k ≡ true
    → is_empty k ≡ false
    → is_deleted k ≡ false
    → is_filled k ≡ true
settled-filled k h e d = ground arith

module _ {ℓ} {K V : Type ℓ} (keys : Keys K V) where
  -- The filled entry at an index is come to from the index of its hash, with no empty entry on the
  -- way.
  pub record IsReached (entries : List (Entry K V)) (p : ℕ) : Type 0 where
    pub round : ℕ
    pub below : round < length entries
    pub place :
        probe (length entries) round ((entry_element keys entries p).hash % length entries) ≡ p
    pub before :
        (i : ℕ)
        → i < round
        → is_empty (at_round keys entries i ((entry_element keys entries p).hash % length entries))
          ≡ false

  -- Between two operations each entry is empty, deleted or filled, and each filled one is reached.
  pub record IsValid (entries : List (Entry K V)) : Type 0 where
    pub settled : (p : ℕ) → p < length entries → is_settled (kind_at keys entries p) ≡ true
    pub reached :
        (p : ℕ)
        → p < length entries
        → is_filled (kind_at keys entries p) ≡ true
        → IsReached entries p

  -- a filled entry with the hash and the key
  pub record Holds (entries : List (Entry K V)) (ckey : K) (hash p : ℕ) : Type 0 where
    pub inside : p < length entries
    pub full : is_filled (kind_at keys entries p) ≡ true
    pub matches : is_match keys ckey hash (entry_element keys entries p) ≡ true

  pub find_is_loop :
      (entries : List (Entry K V)) (ckey : K) (hash : ℕ)
      → 1 ≤ length entries
      → find_element_index keys entries ckey hash
        ≡ find_loop keys entries ckey hash (length entries) (hash % length entries) none
  unfolding find_element_index
  find_is_loop [] ckey hash h = absurd (omega arith)
  find_is_loop (e ∷ es) ckey hash h = refl

  same_hash :
      (ckey : K) (hash : ℕ) (e : Entry K V) → is_match keys ckey hash e ≡ true → hash ≡ e.hash
  same_hash ckey hash e h = ground arith

  Holds-Meets :
      (entries : List (Entry K V)) (ckey : K) (hash p : ℕ)
      → IsValid entries
      → Holds entries ckey hash p
      → Meets keys entries ckey hash (length entries) (hash % length entries)
  Holds-Meets entries ckey hash p v h =
      let r = v.reached p h.inside h.full in
      let e = same_hash ckey hash (entry_element keys entries p) h.matches in
      let place : probe (length entries) r.round (hash % length entries) ≡ p =
        ap (λ k. probe (length entries) r.round (k % length entries)) e ∙ r.place in
      record {
        round = r.round;
        below = r.below;
        is_full = rw place h.full;
        matches = rw place h.matches;
        before = λ i lt. rw e (r.before i lt);
      }

  used-filled :
      (entries : List (Entry K V)) (p : ℕ)
      → IsValid entries
      → p < length entries
      → (is_empty (kind_at keys entries p) ≡ false) × (is_deleted (kind_at keys entries p) ≡ false)
      → is_filled (kind_at keys entries p) ≡ true
  used-filled entries p v lt (e, d) = settled-filled (kind_at keys entries p) (v.settled p lt) e d

  pub Lands-Holds :
      (entries : List (Entry K V)) (ckey : K) (hash r : ℕ)
      → IsValid entries
      → 1 ≤ length entries
      → Lands keys entries ckey hash (length entries) (hash % length entries) r
      → Holds entries ckey hash r
  Lands-Holds entries ckey hash r v some_entry l =
      let inside : r < length entries =
        rw l.place
          (probe-lt (length entries) l.round (hash % length entries) (mod-lt hash some_entry)) in
      record { inside = inside; full = used-filled entries r v inside l.used; matches = l.matches }

  -- In a valid table, if a key and its hash are found, the index is that of a filled entry with
  -- this hash and key; and they are found where there is such an entry.
  pub find_element_index-Holds :
      (entries : List (Entry K V)) (ckey : K) (hash : ℕ)
      → IsValid entries
      → ((find_element_index keys entries ckey hash).0 ≡ true
          → Holds entries ckey hash (find_element_index keys entries ckey hash).1)
        × ((p : ℕ)
            → Holds entries ckey hash p
            → (find_element_index keys entries ckey hash).0 ≡ true)
  unfolding find_element_index
  find_element_index-Holds [] ckey hash v = (λ h. cc, λ p h. absurd (omega (arith, h.inside)))
  find_element_index-Holds (e ∷ es) ckey hash v = (
    λ h.
        Lands-Holds (e ∷ es) ckey hash _ v (omega arith) (
          find_loop-Lands keys (e ∷ es) ckey hash (length (e ∷ es)) (hash % length (e ∷ es)) none
            h),
    λ p h.
        find_loop-Meets keys (e ∷ es) ckey hash (length (e ∷ es)) (hash % length (e ∷ es)) none
          (Holds-Meets (e ∷ es) ckey hash p v h),
  )

  choice :
      (b : Bool) (e e' : Entry K V)
      → is_empty e.element_type ≡ false
      → is_empty e'.element_type ≡ false
      → is_empty (if b then e else e').element_type ≡ false
  choice true e e' h h' = h
  choice false e e' h h' = h'

  pub set-filled :
      (entries : List (Entry K V)) (q : ℕ) (e : Entry K V) (x : ℕ)
      → q < length entries
      → is_empty e.element_type ≡ false
      → is_empty (kind_at keys entries x) ≡ false
      → is_empty (kind_at keys (set entries q e) x) ≡ false
  set-filled entries q e x lt full old =
      subst (λ (y : Entry K V). is_empty y.element_type ≡ false)
        (sym (get_or-set entries q x e (zero_entry keys) lt))
        (choice (q == x) e (entry_element keys entries x) full old)

  -- A change of one entry that leaves no new empty entry keeps the others reached.
  pub IsReached-set :
      (entries : List (Entry K V)) (q p : ℕ) (e : Entry K V)
      → q < length entries
      → is_empty e.element_type ≡ false
      → (entry_element keys (set entries q e) p).hash ≡ (entry_element keys entries p).hash
      → IsReached entries p
      → IsReached (set entries q e) p
  IsReached-set entries q p e lt full same r = record {
    round = r.round;
    below = rw (length-set entries q e) r.below;
    place = rw (length-set entries q e, same) r.place;
    before =
        λ i l. rw (length-set entries q e, same) (set-filled entries q e _ lt full (r.before i l));
  }

  pub get_or-replicate : (n i : ℕ) (e : Entry K V) → get_or (replicate n e) i e ≡ e
  get_or-replicate zero i e = refl
  get_or-replicate (suc n) zero e = refl
  get_or-replicate (suc n) (suc i) e = get_or-replicate n i e

  -- a table of initialized entries
  pub new-IsValid : (n : ℕ) → IsValid (replicate n (zero_entry keys))
  new-IsValid n = record {
    settled = λ p l.
        subst (λ (x : Entry K V). is_settled x.element_type ≡ true)
          (sym (get_or-replicate n p (zero_entry keys))) refl;
    reached = λ p l f. cc (
        subst (λ (x : Entry K V). is_filled x.element_type ≡ true)
          (get_or-replicate n p (zero_entry keys)) f);
  }
