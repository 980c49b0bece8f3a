-- ===== src/HashMap/Growth/Outcome.antt =====
-- `Insert` of src/rdx/rdx_hashmap.hpp as a whole.
use rdx.Base.{
  u64, ℕ, ◌+◌, ◌*◌, ◌<◌, ◌≤◌, ◌≡◌, refl, ap, ◌∙◌, ◌⊎◌, inl, inr, Bool, true, false, some, leb,
  leb→le, arith, if◌then◌else◌, length, Bool-cases,
}
use rdx.Base.Run.{ok}
use rdx.HashMap.{Keys, Table, zero_entry, get_element, store}
use rdx.HashMap.Insert.{store-Stored}
use rdx.HashMap.Rehash.Counts.{count-le, count-missing}
use rdx.HashMap.Rehash.Moves.{entry_filled}
use rdx.HashMap.Lookup.{Lawful}
use rdx.HashMap.Lookup.Matches.{IsSound, is_key}
use rdx.HashMap.Lookup.Stored.{IsDistinct-Stored, get_element-Stored, store-load}
use rdx.HashMap.Growth.{
  inserted, allocation_failed, is_loaded, enlarged_count, enlarge_entry_array, insert_enlarged,
  insert,
}
use rdx.HashMap.Growth.Enlarged.{enlarged-IsSound}

module _ {ℓ} {K V : Type ℓ} (keys : Keys K V) where
  -- A sound table in which the key finds the value, and the other keys what they found.
  pub record Inserted (ckey : K) (value : V) (hash : ℕ) (t u : Table K V) : Type ℓ where
    pub sound : IsSound keys u
    pub found :
        (ckey' : K) (hash' : ℕ)
        → get_element keys ckey' hash' u ≡ (
            if is_key keys ckey hash ckey' hash'
            then some value
            else get_element keys ckey' hash' t)
    pub load : u.load ≤ t.load + 1
    pub size : (n : ℕ) → t.load ≤ n → length t.entries ≤ 3 * n + 1 → length u.entries ≤ 3 * n + 1

  -- with fewer entries in use than there are
  pub store-Inserted :
      (ckey : K) (value : V) (hash : ℕ) (t : Table K V)
      → Lawful keys
      → IsSound keys t
      → length t.entries < 18446744073709551615
      → t.load < length t.entries
      → Inserted ckey value hash t (store keys ckey value hash t)
  store-Inserted ckey value hash t lawful s small room =
      let load = s.load in
      let (p, lt, vacant) =
        count-missing entry_filled t.entries (length t.entries) (zero_entry keys)
          (omega (arith, room, load)) (omega arith) in
      let u = store keys ckey value hash t in
      let st = store-Stored keys lawful.same ckey value hash t p s.valid lt vacant in
      let (same, more) = store-load keys ckey value hash t p s.valid lt vacant load small in
      record {
        sound = record {
          valid = st.valid;
          distinct = IsDistinct-Stored keys lawful ckey value hash t u st s.valid s.distinct;
          load = same;
        };
        found = get_element-Stored keys lawful ckey value hash t u st s.valid s.distinct;
        load = more;
        size = λ n l b. omega (arith, st.size, b);
      }

  -- The test of the load is exact below the bound on the size.
  is_loaded-exact :
      (t : Table K V)
      → IsSound keys t
      → length t.entries < 72057594037927936
      → ((is_loaded t ≡ true → 80 * length t.entries ≤ 100 * t.load)
          × (is_loaded t ≡ false → 100 * t.load < 80 * length t.entries))
  is_loaded-exact t s small =
      let fewer = count-le entry_filled t.entries in
      let load = s.load in
      let le : t.load ≤ length t.entries = omega (arith, fewer, load) in
      (exact_le (length t.entries) t.load small le, exact_lt (length t.entries) t.load small le)
    where
      exact_le :
          (l n : ℕ)
          → l < 72057594037927936
          → n ≤ l
          → leb (u64 (80 * l)) (u64 (n * 100)) ≡ true
          → 80 * l ≤ 100 * n
      exact_le l n small le h =
          let g = leb→le (u64 (80 * l)) (u64 (n * 100)) h in omega (arith, g, small, le)

      exact_lt :
          (l n : ℕ)
          → l < 72057594037927936
          → n ≤ l
          → leb (u64 (80 * l)) (u64 (n * 100)) ≡ false
          → 100 * n < 80 * l
      exact_lt l n small le h = ground arith

  -- the outcome of the code behind the test of the load
  grown-Inserted :
      (gives : ℕ → Bool) (ckey : K) (value : V) (hash : ℕ) (t : Table K V)
      → Lawful keys
      → IsSound keys t
      → length t.entries < 72057594037927936
      → 80 * length t.entries ≤ 100 * t.load
      → gives (enlarged_count (length t.entries)) ≡ true
      → (u : Table K V) × (insert_enlarged keys ckey value hash t
            (enlarge_entry_array keys gives (enlarged_count (length t.entries)) t.entries)
          ≡ ok (inserted u))
        × Inserted ckey value hash t u
  unfolding insert_enlarged enlarge_entry_array
  grown-Inserted gives ckey value hash t lawful s small loaded given =
      let fewer = count-le entry_filled t.entries in
      let load = s.load in
      let (larger, room, bound) = count_bounds (length t.entries) small in
      let (w, run, s', size, kept) =
        enlarged-IsSound keys t s (enlarged_count (length t.entries)) larger in
      let wide : Table K V = record t { entries = w } in
      let i =
        store-Inserted ckey value hash wide lawful s' (omega (arith, size, bound, small))
          (omega (arith, size, room, fewer, load)) in
      (
        store keys ckey value hash wide,
        rw (given, run) refl,
        record {
          sound = i.sound;
          found = λ ckey' hash'.
              i.found ckey' hash'
              ∙ ap (λ o. if is_key keys ckey hash ckey' hash' then some value else o)
                  (kept ckey' hash');
          load = i.load;
          size = λ n l b. i.size n l (omega (arith, size, bound, l, loaded));
        },
      )
    where
      count_bounds :
          (l : ℕ)
          → l < 72057594037927936
          → (l ≤ enlarged_count l) × (l < enlarged_count l) × (enlarged_count l ≤ 2 * l + 1)
      count_bounds l small = (ground arith, ground arith, ground arith)

  refused :
      (gives : ℕ → Bool) (ckey : K) (value : V) (hash : ℕ) (t : Table K V)
      → gives (enlarged_count (length t.entries)) ≡ false
      → insert_enlarged keys ckey value hash t
          (enlarge_entry_array keys gives (enlarged_count (length t.entries)) t.entries)
        ≡ ok (allocation_failed t)
  unfolding insert_enlarged enlarge_entry_array
  refused gives ckey value hash t none_given = rw none_given refl

  -- In a sound table of less than 2 ^ 56 entries, with keys that compare by an equivalence,
  -- `Insert` ends in one of two ways. The table is loaded, the allocator gives no larger array, and
  -- the table is left as it was; or the table is sound, the key finds the value, and each other key
  -- finds what it found.
  pub insert-Inserted :
      (gives : ℕ → Bool) (ckey : K) (value : V) (hash : ℕ) (t : Table K V)
      → Lawful keys
      → IsSound keys t
      → length t.entries < 72057594037927936
      → ((insert keys gives ckey value hash t ≡ ok (allocation_failed t))
          × (is_loaded t ≡ true)
          × (gives (enlarged_count (length t.entries)) ≡ false))
        ⊎ ((u : Table K V) × (insert keys gives ckey value hash t ≡ ok (inserted u))
            × Inserted ckey value hash t u)
  unfolding insert
  insert-Inserted gives ckey value hash t lawful s small =
      let (over, under) = is_loaded-exact t s small in
      elim (Bool-cases (is_loaded t)) [
        | inr h ↦
            let fewer = under h in
            inr (
              store keys ckey value hash t,
              rw h refl,
              store-Inserted ckey value hash t lawful s (omega (arith, small))
                  (omega (arith, fewer)),
            )
        | inl h ↦ elim (Bool-cases (gives (enlarged_count (length t.entries)))) [
          | inl given ↦
              let (u, run, i) =
                grown-Inserted gives ckey value hash t lawful s small (over h) given in
              inr (u, rw h run, i)
          | inr n ↦ inl (rw h (refused gives ckey value hash t n), h, n)
        ]
      ]
