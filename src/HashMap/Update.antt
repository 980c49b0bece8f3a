-- ===== src/HashMap/Update.antt =====
-- Insertion and removal: the part of `Insert` behind the growth of the table, and `RemoveEntry`, of
-- src/rdx/rdx_hashmap.hpp.
use mathlib.Core.Path.{subst}
use native.Mathlib.Decide.{ℕ_discrete}
use rdx.Base.{
  ◌≤◌, ◌+◌, arith, ℕ, ◌<◌, ◌≡◌, ◌≢◌, refl, sym, ap, ◌∙◌, Bool, true, false, List, ◌==◌, arith,
  if◌then◌else◌, length, set, length-set, set-set, get_or-set,
}
use rdx.HashMap.{
  deleted, Entry, Keys, Table, is_filled, is_empty, zero_entry, entry_element, remove_entry,
  destroy_entry,
}
use rdx.HashMap.Probe.{kind_at}
use rdx.HashMap.Find.{is_settled, IsReached, IsValid, IsReached-set}

module _ {ℓ} {K V : Type ℓ} (keys : Keys K V) where
  -- one entry was written
  pub get_set_here :
      (entries : List (Entry K V)) (q : ℕ) (e : Entry K V)
      → q < length entries
      → entry_element keys (set entries q e) q ≡ e
  get_set_here entries q e lt =
      get_or-set entries q q e (zero_entry keys) lt ∙ here (q == q) (ground arith)
    where
      here : (b : Bool) → b ≡ true → (if b then e else entry_element keys entries q) ≡ e
      here true h = refl
      here false h = cc

  pub get_set_other :
      (entries : List (Entry K V)) (q p : ℕ) (e : Entry K V)
      → q < length entries
      → q ≢ p
      → entry_element keys (set entries q e) p ≡ entry_element keys entries p
  get_set_other entries q p e lt ne =
      get_or-set entries q p e (zero_entry keys) lt ∙ there (q == p) (ground arith)
    where
      there :
          (b : Bool)
          → b ≡ false
          → (if b then e else entry_element keys entries p) ≡ entry_element keys entries p
      there true h = cc
      there false h = refl

  get_set :
      (entries : List (Entry K V)) (q p : ℕ) (e : Entry K V) (P : Entry K V → Type 0)
      → q < length entries
      → P e
      → P (entry_element keys entries p)
      → P (entry_element keys (set entries q e) p)
  get_set entries q p e P lt new old = elim (ℕ_discrete q p) [
    | yes same ↦
        subst (λ i. P (entry_element keys (set entries q e) i)) same
          (subst P (sym (get_set_here entries q e lt)) new)
    | no ne ↦ subst P (sym (get_set_other entries q p e lt ne)) old
  ]

  -- Writing an entry that is reached, or one that is deleted, keeps a table valid.
  pub IsValid-set :
      (entries : List (Entry K V)) (q : ℕ) (e : Entry K V)
      → IsValid keys entries
      → q < length entries
      → is_empty e.element_type ≡ false
      → is_settled e.element_type ≡ true
      → (is_filled e.element_type ≡ true → IsReached keys (set entries q e) q)
      → IsValid keys (set entries q e)
  IsValid-set entries q e v lt full settled reach = record {
    settled = λ p l.
        get_set entries q p e (λ (x : Entry K V). is_settled x.element_type ≡ true) lt settled
          (v.settled p (rw (length-set entries q e) at l));
    reached = λ p l f. elim (ℕ_discrete q p) [
      | yes same ↦
          let e' =
            subst (λ i. entry_element keys (set entries q e) i ≡ e) same
              (get_set_here entries q e lt) in
          subst (IsReached keys (set entries q e)) same
            (reach (subst (λ (x : Entry K V). is_filled x.element_type ≡ true) e' f))
      | no ne ↦
          let old = get_set_other entries q p e lt ne in
          IsReached-set keys entries q p e lt full (ap (λ (x : Entry K V). x.hash) old) (
            v.reached p (rw (length-set entries q e) at l)
              (subst (λ (x : Entry K V). is_filled x.element_type ≡ true) old f))
    ];
  }

  -- In a valid table whose load is from 1 to 2 ^ 64 - 1, removing a filled entry leaves a valid
  -- table of the same size and a load less by one, in which this entry is deleted and the others
  -- are as they were.
  pub remove_entry-IsValid :
      (idx : ℕ) (t : Table K V)
      → IsValid keys t.entries
      → idx < length t.entries
      → is_filled (kind_at keys t.entries idx) ≡ true
      → 1 ≤ t.load
      → t.load < 18446744073709551616
      → let u = remove_entry keys idx t in
        IsValid keys u.entries
        × (kind_at keys u.entries idx ≡ deleted)
        × ((p : ℕ) → idx ≢ p → entry_element keys u.entries p ≡ entry_element keys t.entries p)
        × (length u.entries ≡ length t.entries)
        × (t.load ≡ u.load + 1)
  unfolding remove_entry destroy_entry
  remove_entry-IsValid idx t v lt full some_load word =
      let gone : Entry K V = record (zero_entry keys) { element_type = deleted } in
      rw (full, set-set t.entries idx _ gone)
        (
          IsValid-set t.entries idx gone v lt refl refl (λ h. cc),
          ap (λ (x : Entry K V). x.element_type) (get_set_here t.entries idx gone lt),
          λ p ne. get_set_other t.entries idx p gone lt ne,
          length-set t.entries idx gone,
          omega (arith, some_load, word),
        )
