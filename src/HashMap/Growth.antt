-- ===== src/HashMap/Growth.antt =====
-- The size of the table: `EnlargeEntryArray`, `Insert`, `Balance`, `Clear` and the constructor of
-- src/rdx/rdx_hashmap.hpp. Whether the allocator gives memory for a number of entries is a
-- parameter; where it gives none, `Insert` throws and leaves the table as it was.
pub mod Enlarged
pub mod Outcome
pub mod Shrunk
use rdx.Base.{
  u64, ℕ, zero, suc, ◌+◌, ◌-◌, ◌*◌, ◌/◌, Bool, true, false, ◌&&◌, List, [], ◌∷◌, ◌++◌, Option, none,
  some, ltb, leb, ◌==◌, if◌then◌else◌, length, take, replicate,
}
use rdx.Base.Run.{Run, ok, out_of_bounds, out_of_fuel, ◌>>=◌}
use rdx.HashMap.{
  Entry, Keys, Table, is_filled, zero_entry, entry_element, find_element_index, remove_entry, store,
}
use rdx.HashMap.Rehash.{rehash}

-- how `Insert` ends
pub data Insertion {ℓ} (K V : Type ℓ) : Type ℓ where
  inserted : Table K V → Insertion K V
  allocation_failed : Table K V → Insertion K V

abbrev pub load_factor_percentage : ℕ
load_factor_percentage = 80

-- the test of `Insert` for a larger array
abbrev pub is_loaded {ℓ} : {K V : Type ℓ} → Table K V → Bool
is_loaded t = leb (u64 (load_factor_percentage * length t.entries)) (u64 (t.load * 100))

abbrev pub enlarged_count : ℕ → ℕ
enlarged_count old_count = if old_count == 0 then 1 else u64 (old_count * 2)

module _ {ℓ} {K V : Type ℓ} (keys : Keys K V) where
  -- the constructor
  abbrev pub empty_table : Table K V
  empty_table = record { entries = []; load = 0 }

  -- `Clear`, which leaves the load, for a table that has an object manager or has none
  unfoldable pub clear : Bool → Table K V → Table K V
  clear object_manager t = if object_manager then record t { entries = [] } else t

  unfoldable pub enlarge_entry_array : (ℕ → Bool) → ℕ → List (Entry K V) → Option (List (Entry K V))
  enlarge_entry_array gives new_count entries =
      if gives new_count
      then some (take new_count entries ++ replicate (new_count - length entries) (zero_entry keys))
      else none

  -- `Insert` behind the test of the load, with the array that was or was not given
  unfoldable pub insert_enlarged :
      K → V → ℕ → Table K V → Option (List (Entry K V)) → Run (Insertion K V)
  insert_enlarged ckey value hash t none = ok (allocation_failed t)
  insert_enlarged ckey value hash t (some entries) =
      rehash keys (length t.entries) (enlarged_count (length t.entries)) entries >>= λ entries'.
      ok (inserted (store keys ckey value hash (record t { entries = entries' })))

  unfoldable pub insert : (ℕ → Bool) → K → V → ℕ → Table K V → Run (Insertion K V)
  insert gives ckey value hash t =
      if is_loaded t
      then insert_enlarged ckey value hash t
          (enlarge_entry_array gives (enlarged_count (length t.entries)) t.entries)
      else ok (inserted (store keys ckey value hash t))

  unfoldable pub balance : Table K V → Run (Table K V)
  balance t =
      let shrink_threshold = u64 (length t.entries * load_factor_percentage) / 200 in
      let new_count = length t.entries / 2 in
      if ltb 8 t.load && ltb t.load shrink_threshold
      then (rehash keys (length t.entries) new_count t.entries >>= λ entries'.
          ok (record t { entries = take new_count entries' }))
      else ok t
