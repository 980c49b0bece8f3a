-- ===== src/HashMap/Rehash/Prefix.antt =====
-- The first entries of an array, and the array with its marks dropped: the ends of `Rehash` of
-- src/rdx/rdx_hashmap.hpp.
use mathlib.Core.Path.{subst}
use native.Mathlib.Decide.{dec_lt}
use rdx.Base.{
  ℕ, zero, suc, ◌+◌, ◌<◌, ◌≤◌, ◌≡◌, refl, sym, ap, ◌∙◌, Bool, true, false, List, [], ◌∷◌, arith,
  length, get_or, take,
}
use rdx.HashMap.{
  ElementType, empty, deleted, contains_data, filled, loose, Entry, Keys, is_filled, is_empty,
  zero_entry, entry_element,
}
use rdx.HashMap.Probe.{kind_at}
use rdx.HashMap.Find.{is_settled}
use rdx.HashMap.Rehash.{is_loose, loosened, loosen}
use rdx.HashMap.Rehash.Counts.{count, count-none, count-pointwise, one_if}
use rdx.HashMap.Rehash.Moves.{
  is_used, count_filled, count_loose, entry_filled, entry_loose, Rearranged, Rearranged-in_place,
}
use rdx.HashMap.Rehash.Settle.{is_rehashing, Settling}

module _ {ℓ} {A : Type ℓ} where
  pub length-take : (n : ℕ) (xs : List A) → n ≤ length xs → length (take n xs) ≡ n
  length-take zero xs h = refl
  length-take (suc n) [] h = absurd (omega (arith, h))
  length-take (suc n) (x ∷ xs) h = ap suc (length-take n xs (omega (arith, h)))

  pub get_or-take : (n p : ℕ) (xs : List A) (z : A) → p < n → get_or (take n xs) p z ≡ get_or xs p z
  get_or-take zero p xs z h = absurd (omega (arith, h))
  get_or-take (suc n) p [] z h = refl
  get_or-take (suc n) zero (x ∷ xs) z h = refl
  get_or-take (suc n) (suc p) (x ∷ xs) z h = get_or-take n p xs z (omega (arith, h))

  pub get_or-past : (p : ℕ) (xs : List A) (z : A) → length xs ≤ p → get_or xs p z ≡ z
  get_or-past p [] z h = refl
  get_or-past zero (x ∷ xs) z h = absurd (omega (arith, h))
  get_or-past (suc p) (x ∷ xs) z h = get_or-past p xs z (omega (arith, h))

  pub count-take :
      (test : A → Bool) (n : ℕ) (xs : List A) (z : A)
      → ((p : ℕ) → n ≤ p → test (get_or xs p z) ≡ false)
      → count test (take n xs) ≡ count test xs
  unfolding count
  count-take test zero xs z h = sym (count-none test xs z (λ p. h p (omega arith)))
  count-take test (suc n) [] z h = refl
  count-take test (suc n) (x ∷ xs) z h =
      ap (λ k. one_if (test x) + k) (count-take test n xs z (λ p l. h (suc p) (omega (arith, l))))

module _ {ℓ} {K V : Type ℓ} (keys : Keys K V) where
  length-loosen : (n : ℕ) (entries : List (Entry K V)) → length (loosen n entries) ≡ length entries
  unfolding loosen
  length-loosen zero entries = refl
  length-loosen (suc n) [] = refl
  length-loosen (suc n) (e ∷ es) = ap suc (length-loosen n es)

  -- an entry with its mark dropped
  abbrev loosened_entry : Entry K V → Entry K V
  loosened_entry e = record e { element_type = loosened e.element_type }

  get-loosen :
      (n p : ℕ) (entries : List (Entry K V))
      → (n ≤ p → is_empty (kind_at keys entries p) ≡ true)
      → entry_element keys (loosen n entries) p ≡ loosened_entry (entry_element keys entries p)
  unfolding loosen
  get-loosen zero p entries h =
      let e = entry_element keys entries p in
      ap (λ k. record e { element_type = k })
        (sym (empty-loosened (kind_at keys entries p) (h (omega arith))))
    where
      empty-loosened : (k : ElementType) → is_empty k ≡ true → loosened k ≡ k
      empty-loosened empty e = refl
      empty-loosened deleted e = cc
      empty-loosened contains_data e = cc
      empty-loosened filled e = cc
      empty-loosened loose e = cc
  get-loosen (suc n) p [] h = refl
  get-loosen (suc n) zero (e ∷ es) h = refl
  get-loosen (suc n) (suc p) (e ∷ es) h = get-loosen n p es (λ l. h (omega (arith, l)))

  -- Where all marks are settled, dropping them leaves a table in which no entry is filled, and the
  -- ones that were are loose.
  module _ (old_count new_count : ℕ) (entries : List (Entry K V))
      (settled : (p : ℕ) → is_settled (kind_at keys entries p) ≡ true)
      (rest : (p : ℕ) → old_count ≤ p → is_empty (kind_at keys entries p) ≡ true) where
    abbrev start : List (Entry K V)
    start = loosen old_count entries

    at : (p : ℕ) → kind_at keys start p ≡ loosened (kind_at keys entries p)
    at p = ap (λ (e : Entry K V). e.element_type) (get-loosen old_count p entries (rest p))

    kinds-loosened :
        (k : ElementType)
        → is_settled k ≡ true
        → (is_rehashing (loosened k) ≡ true)
          × (is_filled (loosened k) ≡ false)
          × (is_loose (loosened k) ≡ is_filled k)
          × (is_used (loosened k) ≡ is_used k)
          × (is_loose k ≡ false)
    kinds-loosened empty h = (refl, refl, refl, refl, refl)
    kinds-loosened deleted h = (refl, refl, refl, refl, refl)
    kinds-loosened contains_data h = cc
    kinds-loosened filled h = (refl, refl, refl, refl, refl)
    kinds-loosened loose h = cc

    pub Settling-loosen : Settling keys new_count 0 old_count start
    Settling-loosen = record {
      kinds = λ p. subst (λ k. is_rehashing k ≡ true) (sym (at p)) (kinds-loosened _ (settled p)).0;
      waiting = λ p w. elim (dec_lt p old_count) [
        | yes lt ↦ (omega arith, lt)
        | no ge ↦
            let e = rest p (omega (arith, ge)) in
            let w' = subst (λ k. is_loose k ≡ true) (at p) w in
            absurd (empty-not_loose (kind_at keys entries p) e w')
      ];
      placed = λ p f.
          let f' = subst (λ k. is_filled k ≡ true) (at p) f in
          let none = (kinds-loosened (kind_at keys entries p) (settled p)).1 in cc (f', none);
    }
      where
        empty-not_loose : (k : ElementType) → is_empty k ≡ true → ¬ (is_loose (loosened k) ≡ true)
        empty-not_loose k e w = ground arith

    pub Rearranged-loosen : Rearranged keys entries start
    Rearranged-loosen =
        Rearranged-in_place keys entries start
          (λ p. ap is_used (at p) ∙ (kinds-loosened _ (settled p)).3)
          (λ p u.
            let e = get-loosen old_count p entries (rest p) in
            (
              ap (λ (x : Entry K V). x.hash) e,
              ap (λ (x : Entry K V). x.key) e,
              ap (λ (x : Entry K V). x.value) e,
            ))

    pub counts-loosen :
        (length start ≡ length entries)
        × (count_filled start ≡ 0)
        × (count_loose start ≡ count_filled entries)
    counts-loosen = (
      length-loosen old_count entries,
      count-none entry_filled start (zero_entry keys)
          (λ p. ap is_filled (at p) ∙ (kinds-loosened _ (settled p)).1),
      count-pointwise entry_loose entry_filled start entries (zero_entry keys)
          (sym (length-loosen old_count entries))
          (λ p. ap is_loose (at p) ∙ (kinds-loosened _ (settled p)).2),
    )
