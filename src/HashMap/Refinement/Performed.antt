-- ===== src/HashMap/Refinement/Performed.antt =====
-- Operations by keys on the hash table of src/rdx/rdx_hashmap.hpp, one by one and in a row.
use rdx.Base.{
  ℕ, ◌+◌, ◌*◌, ◌<◌, ◌≤◌, ◌≡◌, refl, ap, ◌∙◌, inl, inr, Bool, true, List, [], ◌∷◌, none, arith,
  length, Bool-cases,
}
use rdx.Base.Run.{ok}
use rdx.HashMap.{Keys, Table, find_element_index, get_element, set_element, remove_entry}
use rdx.HashMap.Find.{find_element_index-Holds, new-IsValid}
use rdx.HashMap.Lookup.{Lawful, get_element-none}
use rdx.HashMap.Lookup.Matches.{IsSound, new-IsSound}
use rdx.HashMap.Lookup.Removed.{remove_entry-IsSound}
use rdx.HashMap.Lookup.Replaced.{stays, set_element-IsSound}
use rdx.HashMap.Growth.{enlarged_count, empty_table}
use rdx.HashMap.Growth.Outcome.{insert-Inserted}
use rdx.HashMap.Growth.Shrunk.{balance-IsSound}
use rdx.HashMap.Refinement.{
  Operation, inserting, setting, removing, perform, perform_all, effect, effect_all,
}

module _ {ℓ} {K V : Type ℓ} (keys : Keys K V) where
  -- after at most `n` insertions
  record Sized (n : ℕ) (t : Table K V) : Type ℓ where
    pub sound : IsSound keys t
    pub load : t.load ≤ n
    pub size : length t.entries ≤ 3 * n + 1

  record Performed (n : ℕ) (op : Operation K V) (t u : Table K V) : Type ℓ where
    pub sized : Sized (n + 1) u
    pub found :
        (ckey : K) (hash : ℕ)
        → get_element keys ckey hash u ≡ effect keys op ckey hash (get_element keys ckey hash t)

  module _ (lawful : Lawful keys) (gives : ℕ → Bool) (given : (n : ℕ) → gives n ≡ true) (n : ℕ)
      (small : n < 1125899906842624) (t : Table K V) (s : Sized n t) where
    perform_insert :
        (ckey : K) (value : V) (hash : ℕ)
        → (u : Table K V) × (perform keys gives (inserting ckey value hash) t ≡ ok u)
          × Performed n (inserting ckey value hash) t u
    unfolding perform
    perform_insert ckey value hash =
        elim (insert-Inserted keys gives ckey value hash t lawful s.sound
          (omega (arith, small, s.size))) [
            | inl (_, _, none_given) ↦
                let g = given (enlarged_count (length t.entries)) in cc (none_given, g)
            | inr (u, run, i) ↦ (
              u,
              rw run refl,
              record {
                sized = record {
                  sound = i.sound;
                  load = omega (arith, i.load, s.load);
                  size = omega (arith, i.size n s.load s.size);
                };
                found = i.found;
              },
            )
          ]

    perform_set :
        (ckey : K) (value : V) (hash : ℕ)
        → (u : Table K V) × (perform keys gives (setting ckey value hash) t ≡ ok u)
          × Performed n (setting ckey value hash) t u
    unfolding perform
    perform_set ckey value hash =
        let (sound, size, load, found) =
          set_element-IsSound keys ckey value hash t lawful s.sound in
        (
          (set_element keys ckey value hash t).1,
          refl,
          record {
            sized = record {
              sound = sound;
              load = omega (arith, load, s.load);
              size = omega (arith, size, s.size);
            };
            found = found;
          },
        )

    perform_remove :
        (ckey : K) (hash : ℕ)
        → (u : Table K V) × (perform keys gives (removing ckey hash) t ≡ ok u)
          × Performed n (removing ckey hash) t u
    unfolding perform
    perform_remove ckey hash =
        let (sound, complete) = find_element_index-Holds keys t.entries ckey hash s.sound.valid in
        let q : ℕ = (find_element_index keys t.entries ckey hash).1 in
        elim (Bool-cases (find_element_index keys t.entries ckey hash).0) [
          | inl found ↦
              let (sound', size, less, found') =
                remove_entry-IsSound keys t ckey hash q lawful s.sound
                  (omega (arith, small, s.size)) (sound found) in
              let (u, run, sound'', load, size', kept) =
                balance-IsSound keys (remove_entry keys q t) sound'
                  (omega (arith, size, small, s.size)) in
              (
                u,
                rw found run,
                record {
                  sized = record {
                    sound = sound'';
                    load = omega (arith, load, less, s.load);
                    size = omega (arith, size, size', s.size);
                  };
                  found = λ ckey' hash'. kept ckey' hash' ∙ found' ckey' hash';
                },
              )
          | inr missing ↦
              let none_found =
                get_element-none keys t ckey hash s.sound.valid
                  (λ p h. let f = complete p h in cc (missing, f)) in
              (
                t,
                rw missing refl,
                record {
                  sized = record {
                    sound = s.sound;
                    load = omega (arith, s.load);
                    size = omega (arith, s.size);
                  };
                  found = stays keys ckey hash t lawful s.sound none_found;
                },
              )
        ]

    performed :
        (op : Operation K V)
        → (u : Table K V) × (perform keys gives op t ≡ ok u) × Performed n op t u
    performed (inserting ckey value hash) = perform_insert ckey value hash
    performed (setting ckey value hash) = perform_set ckey value hash
    performed (removing ckey hash) = perform_remove ckey hash

  performed_all :
      (lawful : Lawful keys) (gives : ℕ → Bool)
      → ((n : ℕ) → gives n ≡ true)
      → (ops : List (Operation K V)) (n : ℕ) (t : Table K V) → n + length ops < 1125899906842624
      → Sized n t
      → (u : Table K V) × (perform_all keys gives ops t ≡ ok u)
        × ((ckey : K) (hash : ℕ)
            → get_element keys ckey hash u
              ≡ effect_all keys ops ckey hash (get_element keys ckey hash t))
  unfolding perform_all effect_all
  performed_all lawful gives given [] n t small s = (t, refl, λ ckey hash. refl)
  performed_all lawful gives given (op ∷ ops) n t small s =
      let (u, run, p) = performed lawful gives given n (omega (arith, small)) t s op in
      let (w, run', found) =
        performed_all lawful gives given ops (n + 1) u (omega (arith, small)) p.sized in
      (
        w,
        rw run run',
        λ ckey hash. found ckey hash ∙ ap (effect_all keys ops ckey hash) (p.found ckey hash),
      )

  -- Where the allocator gives what it is asked for and keys compare by an equivalence, less than 2
  -- ^ 50 operations on a new table, which insert, set and remove by keys, end; and then each key,
  -- with its hash, finds what a map, as a function, has for it after the same operations.
  pub perform_all-refines :
      (gives : ℕ → Bool) (ops : List (Operation K V))
      → Lawful keys
      → ((n : ℕ) → gives n ≡ true)
      → length ops < 1125899906842624
      → (u : Table K V) × (perform_all keys gives ops (empty_table keys) ≡ ok u)
        × ((ckey : K) (hash : ℕ)
            → get_element keys ckey hash u ≡ effect_all keys ops ckey hash none)
  perform_all-refines gives ops lawful given small =
      let start : Sized 0 (empty_table keys) = record {
        sound = new-IsSound keys 0;
        load = omega arith;
        size = omega arith;
      } in
      let (u, run, found) =
        performed_all lawful gives given ops 0 (empty_table keys) (omega (arith, small)) start in
      (
        u,
        run,
        λ ckey hash.
            found ckey hash
            ∙ ap (effect_all keys ops ckey hash) (
                get_element-none keys (empty_table keys) ckey hash (new-IsValid keys 0)
                  (λ p h. omega (arith, h.inside))),
      )
