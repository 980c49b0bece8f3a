-- ===== src/Tests/HashMapGrowth.antt =====
-- src/rdx/rdx_hashmap.hpp: tables that grow and shrink, and the theorems on them.
use rdx.Base.{
  ◌*◌, ℕ, zero, suc, ◌≤◌, ◌≡◌, ◌⊎◌, refl, sym, ap, ◌∙◌, ltb, Bool, true, false, List, [], ◌∷◌,
  Option, none, some, ◌==◌, ==_iff, length, take, replicate, arith,
}
use rdx.Base.Run.{Run, ok, out_of_bounds, out_of_fuel}
use rdx.HashMap.{
  Entry, Keys, Table, is_empty, zero_entry, find_element_index, find_loop, store, remove_entry,
  destroy_entry, get_element, set_element,
}
use rdx.HashMap.Probe.{kind_at}
use rdx.HashMap.Rehash.{
  rehash, loosen, settle_entries, settle_entry, find_destination, move_entry, swap_entry_data,
}
use rdx.HashMap.Rehash.Counts.{count}
use rdx.HashMap.Rehash.Prefix.{get_or-past}
use rdx.HashMap.Rehash.Whole.{Rehashed, rehash-Rehashed}
use rdx.HashMap.Lookup.{Lawful, IsDistinct, all_settled}
use rdx.HashMap.Lookup.Matches.{IsSound, new-IsSound}
use rdx.HashMap.Lookup.Stored.{length-store}
use rdx.HashMap.Growth.{
  inserted, allocation_failed, is_loaded, enlarged_count, empty_table, insert, insert_enlarged,
  enlarge_entry_array, balance, clear,
}
use rdx.HashMap.Growth.Outcome.{Inserted, store-Inserted, insert-Inserted}
use rdx.HashMap.Growth.Shrunk.{balance-IsSound}
use rdx.HashMap.Refinement.{
  Operation, inserting, setting, removing, perform, perform_all, effect_all,
}
use rdx.HashMap.Refinement.Performed.{perform_all-refines}

abbrev numbers : Keys ℕ ℕ
numbers = record { zero_key = 0; zero_value = 0; compare_key = λ a b. a == b; hash_key = λ a. a }

numbers-Lawful : Lawful numbers
numbers-Lawful = record {
  same = λ k. (==_iff k k).1 refl;
  turned = λ a b h. (==_iff b a).1 (sym ((==_iff a b).0 h));
  joined = λ a b c h g. (==_iff a c).1 ((==_iff a b).0 h ∙ (==_iff b c).0 g);
}

abbrev always : ℕ → Bool
always n = true

program : Unit {0}
unfolding find_element_index find_loop store remove_entry destroy_entry get_element set_element
    rehash loosen settle_entries settle_entry find_destination move_entry swap_entry_data count
    insert insert_enlarged enlarge_entry_array balance clear perform perform_all effect_all
    IsDistinct
program = tt

-- a table of 64 entries with the keys below a number
abbrev wide : Table ℕ ℕ
wide = record { entries = replicate 64 (zero_entry numbers); load = 0 }

abbrev stored : ℕ → Table ℕ ℕ
stored zero = wide
stored (suc n) = store numbers (n * 7) n (n * 7) (stored n)

-- a sound table of 64 entries, whose load is not more than a number
record IsWide (n : ℕ) (t : Table ℕ ℕ) : Type 0 where
  sound : IsSound numbers t
  size : length t.entries ≡ 64
  load : t.load ≤ n

stored-IsWide : (n : ℕ) → n ≤ 60 → IsWide n (stored n)
stored-IsWide zero h = record { sound = new-IsSound numbers 64; size = refl; load = omega arith }
stored-IsWide (suc n) h =
    let w = stored-IsWide n (omega (arith, h)) in
    let i =
      store-Inserted numbers (n * 7) n (n * 7) (stored n) numbers-Lawful w.sound
        (omega (arith, w.size)) (omega (arith, w.size, w.load, h)) in
    record {
      sound = i.sound;
      size = length-store numbers (n * 7) n (n * 7) (stored n) ∙ w.size;
      load = omega (arith, i.load, w.load);
    }

abbrev ten : Table ℕ ℕ
ten = stored 10

-- 64 entries of which 10 are in use become 32
balance-IsSound_example :
    (u : Table ℕ ℕ) × (balance numbers ten ≡ ok u)
    × IsSound numbers u
    × (u.load ≡ ten.load)
    × (length u.entries ≤ length ten.entries)
    × ((ckey : ℕ) (hash : ℕ) → get_element numbers ckey hash u ≡ get_element numbers ckey hash ten)
balance-IsSound_example =
    balance-IsSound numbers ten (stored-IsWide 10 (omega arith)).sound
      (unfold program in omega arith)

ten_rest : (p : ℕ) → 64 ≤ p → is_empty (kind_at numbers ten.entries p) ≡ true
ten_rest p l =
    let size = (stored-IsWide 10 (omega arith)).size in
    ap (λ (x : Entry ℕ ℕ). is_empty x.element_type)
      (get_or-past p ten.entries (zero_entry numbers) (omega (arith, l, size)))

-- 64 entries with 10 in use are rehashed for 16
rehash-Rehashed_example :
    (u : List (Entry ℕ ℕ)) × (rehash numbers 64 16 ten.entries ≡ ok u)
    × (length u ≡ length ten.entries)
    × Rehashed numbers 16 ten.entries (take 16 u)
rehash-Rehashed_example =
    rehash-Rehashed numbers 64 16 ten.entries
      (all_settled numbers ten.entries (stored-IsWide 10 (omega arith)).sound.valid) ten_rest
      (unfold program in omega arith) (unfold program in omega arith)
      (unfold program in omega arith)

-- a first key in a table of no entries, which the allocator enlarges, or does not
abbrev none_yet : Table ℕ ℕ
none_yet = empty_table numbers

insert-Inserted_example :
    ((insert numbers always 6 60 6 none_yet ≡ ok (allocation_failed none_yet))
      × (is_loaded none_yet ≡ true)
      × (always (enlarged_count (length none_yet.entries)) ≡ false))
    ⊎ ((u : Table ℕ ℕ) × (insert numbers always 6 60 6 none_yet ≡ ok (inserted u))
        × Inserted numbers 6 60 6 none_yet u)
insert-Inserted_example =
    insert-Inserted numbers always 6 60 6 none_yet numbers-Lawful (new-IsSound numbers 0)
      (omega arith)

abbrev one_entry : Table ℕ ℕ
one_entry = store numbers 6 60 6 (record { entries = zero_entry numbers ∷ []; load = 0 })

not_given : insert numbers (λ n. ltb n 2) 7 70 7 one_entry ≡ ok (allocation_failed one_entry)
not_given = unfold program in refl

-- keys that go to one place, an overwritten one, a removed one, and one that is set but not there
abbrev operations : List (Operation ℕ ℕ)
operations =
    inserting 6 60 6
    ∷ inserting 10 100 10
    ∷ inserting 6 61 6
    ∷ inserting 14 140 14
    ∷ removing 10 10
    ∷ setting 14 141 14
    ∷ setting 3 30 3
    ∷ []

perform_all-refines_example :
    (u : Table ℕ ℕ) × (perform_all numbers always operations (empty_table numbers) ≡ ok u)
    × ((ckey : ℕ) (hash : ℕ)
        → get_element numbers ckey hash u ≡ effect_all numbers operations ckey hash none)
perform_all-refines_example =
    perform_all-refines numbers always operations numbers-Lawful (λ n. refl) (omega arith)

abbrev read_back : Run (Table ℕ ℕ) → ℕ → Option ℕ
read_back (ok t) k = get_element numbers k k t
read_back out_of_bounds k = none
read_back out_of_fuel k = none

abbrev after : Run (Table ℕ ℕ)
after = perform_all numbers always operations (empty_table numbers)

set_after : read_back after 14 ≡ some 141
set_after = unfold program in refl

removed_after : read_back after 10 ≡ none
removed_after = unfold program in refl

overwritten_after : read_back after 6 ≡ some 61
overwritten_after = unfold program in refl

not_there_after : read_back after 3 ≡ none
not_there_after = unfold program in refl
