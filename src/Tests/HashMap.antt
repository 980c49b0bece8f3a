-- ===== src/Tests/HashMap.antt =====
-- src/rdx/rdx_hashmap.hpp: tables whose keys are numbers, and the theorems on them.
use rdx.Base.{◌+◌, ℕ, ◌≡◌, ◌≢◌, refl, true, some, ◌==◌, length, replicate, arith}
use rdx.HashMap.{
  Keys, Table, deleted, zero_entry, entry_element, find_element_index, find_loop, store,
  remove_entry, destroy_entry, get_element, set_element, contains_key,
}
use rdx.HashMap.Probe.{kind_at}
use rdx.HashMap.Find.{IsValid, Holds, find_element_index-Holds, new-IsValid}
use rdx.HashMap.Update.{remove_entry-IsValid}
use rdx.HashMap.Insert.{Stored, store-Stored}

abbrev numbers : Keys ℕ ℕ
numbers = record { zero_key = 0; zero_value = 0; compare_key = λ a b. a == b; hash_key = λ a. a }

same_number : (k : ℕ) → (k == k) ≡ true
same_number k = ground arith

abbrev fresh : Table ℕ ℕ
fresh = record { entries = replicate 4 (zero_entry numbers); load = 0 }

program : Unit {0}
unfolding find_element_index find_loop store remove_entry destroy_entry get_element set_element
    contains_key
program = tt

store-Stored_example : Stored numbers 6 60 6 fresh (store numbers 6 60 6 fresh)
store-Stored_example =
    store-Stored numbers same_number 6 60 6 fresh 1 (new-IsValid numbers 4) (omega arith) refl

one-Stored : Stored numbers 6 60 6 fresh (store numbers 6 60 6 fresh)
one-Stored =
    store-Stored numbers same_number 6 60 6 fresh 1 (new-IsValid numbers 4) (omega arith) refl

abbrev one : Table ℕ ℕ
one = store numbers 6 60 6 fresh

find_element_index-Holds_example :
    ((find_element_index numbers one.entries 6 6).0 ≡ true
      → Holds numbers one.entries 6 6 (find_element_index numbers one.entries 6 6).1)
    × ((p : ℕ)
        → Holds numbers one.entries 6 6 p
        → (find_element_index numbers one.entries 6 6).0 ≡ true)
find_element_index-Holds_example = find_element_index-Holds numbers one.entries 6 6 one-Stored.valid

remove_entry-IsValid_example :
    let u = remove_entry numbers 2 one in
    IsValid numbers u.entries
    × (kind_at numbers u.entries 2 ≡ deleted)
    × ((p : ℕ) → 2 ≢ p → entry_element numbers u.entries p ≡ entry_element numbers one.entries p)
    × (length u.entries ≡ length one.entries)
    × (one.load ≡ u.load + 1)
remove_entry-IsValid_example =
    remove_entry-IsValid numbers 2 one one-Stored.valid (unfold program in omega arith)
      (unfold program in refl) (unfold program in omega arith) (unfold program in omega arith)

-- two keys of one hash index: the second goes to the next entry, and is found past the first once
-- that was removed
abbrev two : Table ℕ ℕ
two = store numbers 10 100 10 one

second_found : find_element_index numbers two.entries 10 10 ≡ (true, 3)
second_found = unfold program in refl

second_found_past : get_element numbers 10 10 (remove_entry numbers 2 two) ≡ some 100
second_found_past = unfold program in refl

overwritten : get_element numbers 10 10 (set_element numbers 10 5 10 two).1 ≡ some 5
overwritten = unfold program in refl
