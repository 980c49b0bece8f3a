-- ===== src/HashMap/Refinement.antt =====
-- The hash table of src/rdx/rdx_hashmap.hpp as a finite map: a client that inserts, sets and removes
-- by keys, and what it reads.
pub mod Performed
use rdx.Base.{
  ℕ, ◌+◌, ◌*◌, ◌<◌, ◌≤◌, ◌≡◌, refl, sym, ap, ◌∙◌, ◌⊎◌, inl, inr, Bool, true, false, List, [], ◌∷◌,
  Option, none, some, arith, if◌then◌else◌, length, Bool-cases,
}
use rdx.Base.Run.{Run, ok, ◌>>=◌}
use rdx.HashMap.{Entry, Keys, Table, find_element_index, get_element, set_element, remove_entry}
use rdx.HashMap.Find.{find_element_index-Holds, new-IsValid}
use rdx.HashMap.Rehash.Counts.{count}
use rdx.HashMap.Rehash.Moves.{count_filled}
use rdx.HashMap.Lookup.{Lawful, IsDistinct, get_element-none}
use rdx.HashMap.Lookup.Matches.{IsSound, is_key, match-both}
use rdx.HashMap.Lookup.Removed.{remove_entry-IsSound}
use rdx.HashMap.Lookup.Replaced.{replace_with, stays, set_element-IsSound}
use rdx.HashMap.Growth.{
  Insertion, inserted, allocation_failed, enlarged_count, empty_table, insert, balance,
}
use rdx.HashMap.Growth.Outcome.{Inserted, insert-Inserted}
use rdx.HashMap.Growth.Shrunk.{balance-IsSound}

-- what a client does, by a key, with its hash
pub data Operation {ℓ} (K V : Type ℓ) : Type ℓ where
  inserting : K → V → ℕ → Operation K V
  setting : K → V → ℕ → Operation K V
  removing : K → ℕ → Operation K V

abbrev pub table_of {ℓ} : {K V : Type ℓ} → Insertion K V → Table K V
table_of (inserted t) = t
table_of (allocation_failed t) = t

module _ {ℓ} {K V : Type ℓ} (keys : Keys K V) where
  -- One operation on the table. An entry is removed only where its key was found.
  unfoldable pub perform : (ℕ → Bool) → Operation K V → Table K V → Run (Table K V)
  perform gives (inserting ckey value hash) t =
      insert keys gives ckey value hash t >>= λ i. ok (table_of i)
  perform gives (setting ckey value hash) t = ok (set_element keys ckey value hash t).1
  perform gives (removing ckey hash) t =
      let (found, index) = find_element_index keys t.entries ckey hash in
      if found then balance keys (remove_entry keys index t) else ok t

  unfoldable pub perform_all : (ℕ → Bool) → List (Operation K V) → Table K V → Run (Table K V)
  perform_all gives [] t = ok t
  perform_all gives (op ∷ ops) t = perform gives op t >>= perform_all gives ops

  -- What an operation makes of the value of a key, where the map is a function.
  abbrev pub effect : Operation K V → K → ℕ → Option V → Option V
  effect (inserting ckey value hash) ckey' hash' old =
      if is_key keys ckey hash ckey' hash' then some value else old
  effect (setting ckey value hash) ckey' hash' old =
      if is_key keys ckey hash ckey' hash' then replace_with value old else old
  effect (removing ckey hash) ckey' hash' old =
      if is_key keys ckey hash ckey' hash' then none else old

  unfoldable pub effect_all : List (Operation K V) → K → ℕ → Option V → Option V
  effect_all [] ckey hash old = old
  effect_all (op ∷ ops) ckey hash old = effect_all ops ckey hash (effect op ckey hash old)
