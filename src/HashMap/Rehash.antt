-- ===== src/HashMap/Rehash.antt =====
-- `Rehash` of src/rdx/rdx_hashmap.hpp: each entry of the array goes to its place for a new number
-- of entries.
pub mod Counts
pub mod Swaps
pub mod Moves
pub mod Settle
pub mod Step
pub mod Loops
pub mod Prefix
pub mod Whole
use rdx.Base.{
  ℕ, zero, suc, ◌+◌, ◌%◌, ◌≡◌, ◌||◌, Bool, true, false, List, [], ◌∷◌, ◌==◌, if◌then◌else◌, length,
  set,
}
use rdx.Base.Run.{Run, ok, out_of_fuel, ◌>>=◌}
use rdx.HashMap.{
  ElementType, empty, deleted, contains_data, filled, loose, Entry, Keys, is_filled, next_index,
  entry_element,
}

abbrev pub is_loose : ElementType → Bool
is_loose loose = true
is_loose kind = false

-- all deleted to empty and all filled to loose
abbrev pub loosened : ElementType → ElementType
loosened deleted = empty
loosened filled = loose
loosened kind = kind

-- the first loop, on the first `old_count` entries
unfoldable pub loosen {ℓ} : {K V : Type ℓ} → ℕ → List (Entry K V) → List (Entry K V)
loosen zero entries = entries
loosen (suc old_count) [] = []
loosen (suc old_count) (e ∷ es) =
    record e { element_type = loosened e.element_type } ∷ loosen old_count es

module _ {ℓ} {K V : Type ℓ} (keys : Keys K V) where
  -- `SwapEntryData`
  unfoldable pub swap_entry_data : ℕ → ℕ → List (Entry K V) → List (Entry K V)
  swap_entry_data entry1idx entry2idx entries =
      if entry1idx == entry2idx
      then entries
      else set (set entries entry1idx (entry_element keys entries entry2idx)) entry2idx
          (entry_element keys entries entry1idx)

  -- the loop from the index of a hash to an entry that is not filled
  unfoldable pub find_destination : ℕ → ℕ → List (Entry K V) → ℕ → Run ℕ
  find_destination zero new_count entries destination = out_of_fuel
  find_destination (suc fuel) new_count entries destination =
      let rest = find_destination fuel new_count entries (next_index new_count destination) in
      if is_filled (entry_element keys entries destination).element_type
      then rest
      else ok destination

  -- Mark the entry as filled, and swap it with the one at its destination.
  unfoldable pub move_entry : ℕ → List (Entry K V) → ℕ → List (Entry K V)
  move_entry i entries destination =
      let element = entry_element keys entries i in
      swap_entry_data i destination (set entries i (record element { element_type = filled }))

  -- the loop while the entry at an index is loose
  unfoldable pub settle_entry : ℕ → ℕ → ℕ → List (Entry K V) → Run (List (Entry K V))
  settle_entry zero new_count i entries = out_of_fuel
  settle_entry (suc fuel) new_count i entries =
      let element = entry_element keys entries i in
      let moved =
        find_destination new_count new_count entries (element.hash % new_count) >>= λ destination.
        settle_entry fuel new_count i (move_entry i entries destination) in
      if is_loose element.element_type then moved else ok entries

  -- the second loop, on the `count` entries from an index on
  unfoldable pub settle_entries : ℕ → ℕ → ℕ → List (Entry K V) → Run (List (Entry K V))
  settle_entries zero new_count i entries = ok entries
  settle_entries (suc count) new_count i entries =
      settle_entry (suc (length entries)) new_count i entries
      >>= settle_entries count new_count (i + 1)

  unfoldable pub rehash : ℕ → ℕ → List (Entry K V) → Run (List (Entry K V))
  rehash old_count new_count entries =
      settle_entries old_count new_count 0 (loosen old_count entries)
