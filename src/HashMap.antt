-- ===== src/HashMap.antt =====
-- `rdxCHashMap` over `rdxCHashMapSimple`, src/rdx/rdx_hashmap.hpp: an open hash table in one array.
-- The array is a list; its length is `numEntries`, and NULL is the empty list. A read outside of the
-- array does not occur: each index is below the length, or the table is empty and the read gives the
-- zero entry.
pub mod Probe
pub mod Cycle
pub mod Find
pub mod Update
pub mod Insert
pub mod Rehash
pub mod Lookup
pub mod Growth
pub mod Refinement
use rdx.Base.{
  ℕ, zero, suc, ◌+◌, ◌-◌, ◌%◌, Bool, true, false, not, ◌&&◌, List, [], ◌∷◌, Option, none, some,
  ◌==◌, if◌then◌else◌, length, get_or, set, u64,
}

-- `HashElementType`
pub data ElementType : Type 0 where
  empty deleted contains_data filled loose : ElementType

-- `rdxSHashEntry` with its `rdxSHashElement`
pub record Entry {ℓ} (K V : Type ℓ) : Type ℓ where
  pub element_type : ElementType
  pub hash : ℕ
  pub key : K
  pub value : V

-- What a key and a value are: their zero bytes, `CompareKey`, and `Hash`.
pub record Keys {ℓ} (K V : Type ℓ) : Type ℓ where
  pub zero_key : K
  pub zero_value : V
  pub compare_key : K → K → Bool
  pub hash_key : K → ℕ

pub record Table {ℓ} (K V : Type ℓ) : Type ℓ where
  pub entries : List (Entry K V)
  pub load : ℕ

abbrev pub is_filled : ElementType → Bool
is_filled filled = true
is_filled kind = false

abbrev pub is_empty : ElementType → Bool
is_empty empty = true
is_empty kind = false

abbrev pub is_deleted : ElementType → Bool
is_deleted deleted = true
is_deleted kind = false

-- `idx++`, and back to 0 at the end
abbrev pub next_index : ℕ → ℕ → ℕ
next_index num_entries idx = if idx + 1 == num_entries then 0 else idx + 1

abbrev pub index_or_zero : Option ℕ → ℕ
index_or_zero none = 0
index_or_zero (some i) = i

-- `if(hitInsertable == false) …` for an entry that is not filled
abbrev pub hit : Option ℕ → ℕ → Option ℕ
hit none idx = some idx
hit (some i) idx = some i

module _ {ℓ} {K V : Type ℓ} (keys : Keys K V) where
  -- `InitializeElement`
  abbrev pub zero_entry : Entry K V
  zero_entry = record {
    element_type = empty;
    hash = 0;
    key = keys.zero_key;
    value = keys.zero_value;
  }

  abbrev pub entry_element : List (Entry K V) → ℕ → Entry K V
  entry_element entries idx = get_or entries idx zero_entry

  -- `hash == entry->hash && CompareKey(ckey, …)`
  abbrev pub is_match : K → ℕ → Entry K V → Bool
  is_match ckey hash e = hash == e.hash && keys.compare_key ckey e.key

  -- The loop of `FindElementIndex`, with the rounds that are left and, once one was hit, the index to
  -- insert at. The result is `found` and the index.
  unfoldable pub find_loop : List (Entry K V) → K → ℕ → ℕ → ℕ → Option ℕ → Bool × ℕ
  find_loop entries ckey hash zero idx insertable = (false, index_or_zero insertable)
  find_loop entries ckey hash (suc rounds) idx insertable =
      let e = entry_element entries idx in
      let insertable' = if is_filled e.element_type then insertable else hit insertable idx in
      let rest = find_loop entries ckey hash rounds (next_index (length entries) idx) insertable' in
      if is_empty e.element_type
      then (false, index_or_zero insertable')
      else if is_deleted e.element_type
      then rest
      else if is_match ckey hash e
      then (true, idx)
      else rest

  unfoldable pub find_element_index : List (Entry K V) → K → ℕ → Bool × ℕ
  find_element_index [] ckey hash = (false, 0)
  find_element_index entries ckey hash =
      find_loop entries ckey hash (length entries) (hash % length entries) none

  -- `ContainsKey`
  unfoldable pub contains_key : K → Table K V → Bool
  contains_key ckey t = (find_element_index t.entries ckey (keys.hash_key ckey)).0

  -- `GetElement`
  unfoldable pub get_element : K → ℕ → Table K V → Option V
  get_element ckey hash t =
      let (found, index) = find_element_index t.entries ckey hash in
      if found then some (entry_element t.entries index).value else none

  -- `SetElement`, and whether the key was there
  unfoldable pub set_element : K → V → ℕ → Table K V → Bool × Table K V
  set_element ckey value hash t =
      let (found, index) = find_element_index t.entries ckey hash in
      if found
      then (
        true,
        record t {
          entries = set t.entries index (record (entry_element t.entries index) { value = value });
        },
      )
      else (false, t)

  -- `DestroyEntry`
  unfoldable pub destroy_entry : ℕ → List (Entry K V) → List (Entry K V)
  destroy_entry idx entries = set entries idx (record zero_entry { element_type = deleted })

  -- `RemoveEntry`, where `load--` goes around below 0. The mark that it makes before `DestroyEntry` depends on the next entry.
  unfoldable pub remove_entry : ℕ → Table K V → Table K V
  unfolding destroy_entry
  remove_entry idx t =
      let entry = entry_element t.entries idx in
      let next = if idx + 1 == length t.entries then 0 else idx + 1 in
      let kind = if is_empty (entry_element t.entries next).element_type then empty else deleted in
      if is_filled entry.element_type
      then record {
        entries = destroy_entry idx (set t.entries idx (record entry { element_type = kind }));
        load = u64 (t.load + 18446744073709551615);
      }
      else t

  -- The part of `Insert` behind the growth of the table; a new key needs no second search.
  unfoldable pub store : K → V → ℕ → Table K V → Table K V
  store ckey value hash t =
      let (found, index) = find_element_index t.entries ckey hash in
      if found
      then record t {
        entries = set t.entries index (record (entry_element t.entries index) { value = value });
      }
      else record {
        entries =
            set t.entries index
              (record { element_type = filled; hash = hash; key = ckey; value = value });
        load = u64 (t.load + 1);
      }
