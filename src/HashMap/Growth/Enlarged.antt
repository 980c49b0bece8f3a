-- ===== src/HashMap/Growth/Enlarged.antt =====
-- A larger array, with its entries at the places for it: `EnlargeEntryArray` and `Rehash` in
-- `Insert` of src/rdx/rdx_hashmap.hpp.
use mathlib.Core.Path.{subst}
use rdx.Base.{
  ℕ, zero, suc, ◌-◌, ◌≤◌, ◌≡◌, refl, sym, ap, ◌∙◌, Bool, true, false, List, [], ◌∷◌, ◌++◌, arith,
  length, get_or, take, replicate, length-append, length-replicate,
}
use rdx.Base.Run.{ok}
use rdx.HashMap.{Entry, Keys, Table, is_empty, zero_entry, entry_element, get_element}
use rdx.HashMap.Find.{is_settled, IsValid}
use rdx.HashMap.Rehash.{rehash}
use rdx.HashMap.Rehash.Counts.{count, count-le}
use rdx.HashMap.Rehash.Moves.{
  is_used, Same-refl, Rearranged, Rearranged-in_place, Rearranged-trans, count_filled, entry_filled,
}
use rdx.HashMap.Rehash.Prefix.{get_or-past}
use rdx.HashMap.Rehash.Whole.{rehash-Rehashed}
use rdx.HashMap.Lookup.{all_settled, IsDistinct-Rearranged, get_element-Rearranged}
use rdx.HashMap.Lookup.Matches.{IsSound}

module _ {ℓ} {A : Type ℓ} where
  take-all : (n : ℕ) (xs : List A) → length xs ≤ n → take n xs ≡ xs
  take-all zero [] h = refl
  take-all zero (x ∷ xs) h = absurd (omega (arith, h))
  take-all (suc n) [] h = refl
  take-all (suc n) (x ∷ xs) h = ap (λ ys. x ∷ ys) (take-all n xs (omega (arith, h)))

  get_or-padding : (k p : ℕ) (z : A) → get_or (replicate k z) p z ≡ z
  get_or-padding zero p z = refl
  get_or-padding (suc k) zero z = refl
  get_or-padding (suc k) (suc p) z = get_or-padding k p z

  get_or-padded : (xs : List A) (k p : ℕ) (z : A) → get_or (xs ++ replicate k z) p z ≡ get_or xs p z
  get_or-padded [] k p z = get_or-padding k p z
  get_or-padded (x ∷ xs) k zero z = refl
  get_or-padded (x ∷ xs) k (suc p) z = get_or-padded xs k p z

  count-padded :
      (test : A → Bool) (xs : List A) (k : ℕ) (z : A)
      → test z ≡ false
      → count test (xs ++ replicate k z) ≡ count test xs
  unfolding count
  count-padded test [] zero z h = refl
  count-padded test [] (suc k) z h =
      let rest = count-padded test [] k z h in rw h (omega (arith, rest))
  count-padded test (x ∷ xs) k z h = let rest = count-padded test xs k z h in rw rest refl

module _ {ℓ} {K V : Type ℓ} (keys : Keys K V) (t : Table K V) (s : IsSound keys t) (new_count : ℕ)
    (larger : length t.entries ≤ new_count) where
  abbrev pub padded : List (Entry K V)
  padded = take new_count t.entries ++ replicate (new_count - length t.entries) (zero_entry keys)

  get-padded : (p : ℕ) → entry_element keys padded p ≡ entry_element keys t.entries p
  get-padded p =
      rw (take-all new_count t.entries larger)
        (get_or-padded t.entries (new_count - length t.entries) p (zero_entry keys))

  length-padded : length padded ≡ new_count
  length-padded =
      let filler = length-replicate (new_count - length t.entries) (zero_entry keys) in
      let both =
        length-append t.entries (replicate (new_count - length t.entries) (zero_entry keys)) in
      rw (take-all new_count t.entries larger) (omega (arith, filler, both, larger))

  Rearranged-padded : Rearranged keys t.entries padded
  Rearranged-padded =
      Rearranged-in_place keys t.entries padded
        (λ p. ap (λ (x : Entry K V). is_used x.element_type) (get-padded p))
        (λ p u.
          Same-refl (entry_element keys padded p) (entry_element keys t.entries p) (get-padded p))

  -- The larger array is rehashed to a sound table, in which each key finds what it found.
  pub enlarged-IsSound :
      (u : List (Entry K V)) × (rehash keys (length t.entries) new_count padded ≡ ok u)
      × IsSound keys (record t { entries = u })
      × (length u ≡ new_count)
      × ((ckey : K) (hash : ℕ)
          → get_element keys ckey hash (record t { entries = u }) ≡ get_element keys ckey hash t)
  enlarged-IsSound =
      let fewer = count-le entry_filled t.entries in
      let same_count : count_filled padded ≡ count_filled t.entries =
        rw (take-all new_count t.entries larger) (
          count-padded entry_filled t.entries (new_count - length t.entries) (zero_entry keys)
            refl) in
      let size = length-padded in
      let (u, run, size', r) =
        rehash-Rehashed keys (length t.entries) new_count padded
          (λ p.
            subst (λ (x : Entry K V). is_settled x.element_type ≡ true) (sym (get-padded p))
              (all_settled keys t.entries s.valid p))
          (λ p l.
            subst (λ (x : Entry K V). is_empty x.element_type ≡ true)
              (sym (get-padded p ∙ get_or-past p t.entries (zero_entry keys) l)) refl)
          (omega (arith, size, larger)) (omega (arith, size))
          (omega (arith, same_count, fewer, larger)) in
      let all : take new_count u ≡ u = take-all new_count u (omega (arith, size, size')) in
      let valid = subst (IsValid keys) all r.valid in
      let back =
        Rearranged-trans keys t.entries padded u Rearranged-padded
          (subst (Rearranged keys padded) all r.rearranged) in
      let load = subst (λ w. count_filled w ≡ count_filled padded) all r.load in
      (
        u,
        run,
        record {
          valid = valid;
          distinct = IsDistinct-Rearranged keys t.entries u s.valid back s.distinct;
          load = s.load ∙ sym (load ∙ same_count);
        },
        size' ∙ size,
        λ ckey hash.
            get_element-Rearranged keys t (record t { entries = u }) ckey hash s.valid s.distinct
              valid back,
      )
