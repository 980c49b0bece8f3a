-- ===== src/HashMap/Rehash/Moves.antt =====
-- What a rehash keeps: the entries in use, each with its hash, key and value:
-- src/rdx/rdx_hashmap.hpp.
use mathlib.Core.Path.{subst}
use native.Mathlib.Decide.{ℕ_discrete}
use rdx.Base.{
  ℕ, ◌+◌, ◌<◌, ◌≡◌, refl, sym, ap, ◌∙◌, Bool, true, false, ◌||◌, List, ◌==◌, arith, if◌then◌else◌,
  length,
}
use rdx.HashMap.{ElementType, filled, Entry, Keys, is_filled, entry_element}
use rdx.HashMap.Probe.{kind_at}
use rdx.HashMap.Rehash.{is_loose, move_entry}
use rdx.HashMap.Rehash.Counts.{count}
use rdx.HashMap.Rehash.Swaps.{moved_here, moved_back, moved_other, count-move_entry}

abbrev pub is_used : ElementType → Bool
is_used k = is_filled k || is_loose k

abbrev pub entry_filled {ℓ} : {K V : Type ℓ} → Entry K V → Bool
entry_filled e = is_filled e.element_type

abbrev pub entry_loose {ℓ} : {K V : Type ℓ} → Entry K V → Bool
entry_loose e = is_loose e.element_type

-- the number of entries in use
abbrev pub count_filled {ℓ} : {K V : Type ℓ} → List (Entry K V) → ℕ
count_filled = count entry_filled

abbrev pub count_loose {ℓ} : {K V : Type ℓ} → List (Entry K V) → ℕ
count_loose = count entry_loose

-- the same hash, key and value
abbrev pub Same {ℓ} : {K V : Type ℓ} → Entry K V → Entry K V → Type ℓ
Same a b = (a.hash ≡ b.hash) × (a.key ≡ b.key) × (a.value ≡ b.value)

pub Same-refl {ℓ} : {K V : Type ℓ} (a b : Entry K V) → a ≡ b → Same a b
Same-refl a b e = (ap (λ x. x.hash) e, ap (λ x. x.key) e, ap (λ x. x.value) e)

Same-trans {ℓ} : {K V : Type ℓ} (a b c : Entry K V) → Same a b → Same b c → Same a c
Same-trans a b c (h, k, v) (h', k', v') = (h ∙ h', k ∙ k', v ∙ v')

-- i and d swapped
abbrev transposed : ℕ → ℕ → ℕ → ℕ
transposed i d p = if p == d then i else if p == i then d else p

module _ {ℓ} {K V : Type ℓ} (keys : Keys K V) where
  -- The entries in use of the second array are those of the first, in other places.
  pub record Rearranged (a b : List (Entry K V)) : Type ℓ where
    pub from : ℕ → ℕ
    pub to : ℕ → ℕ
    pub from-to : (p : ℕ) → from (to p) ≡ p
    pub to-from : (p : ℕ) → to (from p) ≡ p
    pub used : (p : ℕ) → is_used (kind_at keys b p) ≡ is_used (kind_at keys a (from p))
    pub same :
        (p : ℕ)
        → is_used (kind_at keys b p) ≡ true
        → Same (entry_element keys b p) (entry_element keys a (from p))

  -- entries that stand where they stood
  pub Rearranged-in_place :
      (a b : List (Entry K V))
      → ((p : ℕ) → is_used (kind_at keys b p) ≡ is_used (kind_at keys a p))
      → ((p : ℕ)
          → is_used (kind_at keys b p) ≡ true
          → Same (entry_element keys b p) (entry_element keys a p))
      → Rearranged a b
  Rearranged-in_place a b used same = record {
    from = λ p. p;
    to = λ p. p;
    from-to = λ p. refl;
    to-from = λ p. refl;
    used = used;
    same = same;
  }

  pub Rearranged-refl : (a : List (Entry K V)) → Rearranged a a
  Rearranged-refl a = Rearranged-in_place a a (λ p. refl) (λ p u. (refl, refl, refl))

  pub Rearranged-trans :
      (a b c : List (Entry K V)) → Rearranged a b → Rearranged b c → Rearranged a c
  Rearranged-trans a b c r s = record {
    from = λ p. r.from (s.from p);
    to = λ p. s.to (r.to p);
    from-to = λ p. ap r.from (s.from-to (r.to p)) ∙ r.from-to p;
    to-from = λ p. ap s.to (r.to-from (s.from p)) ∙ s.to-from p;
    used = λ p. s.used p ∙ r.used (s.from p);
    same = λ p u.
        Same-trans (entry_element keys c p) (entry_element keys b (s.from p))
          (entry_element keys a (r.from (s.from p))) (s.same p u)
          (r.same (s.from p) (sym (s.used p) ∙ u));
  }

  -- in use or not, as before, with the same hash, key and value
  abbrev Kept : Entry K V → Entry K V → Type ℓ
  Kept x y = (is_used x.element_type ≡ is_used y.element_type) × Same x y

  Kept-refl : (x y : Entry K V) → x ≡ y → Kept x y
  Kept-refl x y e = (ap (λ (z : Entry K V). is_used z.element_type) e, Same-refl x y e)

  Kept-marked :
      (x : Entry K V) → is_loose x.element_type ≡ true → Kept (record x { element_type = filled }) x
  Kept-marked x l = (loose-used x.element_type l, (refl, refl, refl))
    where
      loose-used : (k : ElementType) → is_loose k ≡ true → true ≡ is_used k
      loose-used k h = ground arith

  moved_from :
      (i d p : ℕ) (entries : List (Entry K V))
      → i < length entries
      → d < length entries
      → is_loose (kind_at keys entries i) ≡ true
      → Kept
          (entry_element keys (move_entry keys i entries d) p)
          (entry_element keys entries (transposed i d p))
  moved_from i d p entries li ld l =
      let moved = move_entry keys i entries d in
      let at =
        λ (j : ℕ) (e : transposed i d p ≡ j)
            (k : Kept (entry_element keys moved p) (entry_element keys entries j)).
          subst (λ j. Kept (entry_element keys moved p) (entry_element keys entries j)) (sym e) k in
      elim (ℕ_discrete d p) [
        | yes same ↦ at i (ground arith) (
            subst (λ q. Kept (entry_element keys moved q) (entry_element keys entries i)) same
              (rw (moved_here keys i d entries li ld)
                (Kept-marked (entry_element keys entries i) l)))
        | no nd ↦ elim (ℕ_discrete i p) [
          | yes same ↦ at d (ground arith) (
              subst (λ q. Kept (entry_element keys moved q) (entry_element keys entries d)) same
                (Kept-refl _ _ (moved_back keys i d entries li ld (λ e. nd (sym e ∙ same)))))
          | no ni ↦ at p (ground arith) (Kept-refl _ _ (moved_other keys i d p entries li ld ni nd))
        ]
      ]

  transposed_twice : (i d p : ℕ) → transposed i d (transposed i d p) ≡ p
  transposed_twice i d p = ground arith

  -- A move of a loose entry rearranges the entries.
  pub Rearranged-move_entry :
      (i d : ℕ) (entries : List (Entry K V))
      → i < length entries
      → d < length entries
      → is_loose (kind_at keys entries i) ≡ true
      → Rearranged entries (move_entry keys i entries d)
  Rearranged-move_entry i d entries li ld l = record {
    from = transposed i d;
    to = transposed i d;
    from-to = transposed_twice i d;
    to-from = transposed_twice i d;
    used = λ p. (moved_from i d p entries li ld l).0;
    same = λ p u. (moved_from i d p entries li ld l).1;
  }

  -- One more entry is filled and one less is loose, where the destination was not filled.
  pub count-moved :
      (i d : ℕ) (entries : List (Entry K V))
      → i < length entries
      → d < length entries
      → is_loose (kind_at keys entries i) ≡ true
      → (count_filled (move_entry keys i entries d) ≡ count_filled entries + 1)
        × (count_loose (move_entry keys i entries d) + 1 ≡ count_loose entries)
  count-moved i d entries li ld l =
      let f = count-move_entry keys entry_filled i d entries li ld in
      let g = count-move_entry keys entry_loose i d entries li ld in
      let none_filled : is_filled (kind_at keys entries i) ≡ false = loose-not_filled _ l in
      let f' = rw none_filled at f in let g' = rw l at g in (omega (arith, f'), omega (arith, g'))
    where
      loose-not_filled : (k : ElementType) → is_loose k ≡ true → is_filled k ≡ false
      loose-not_filled k h = ground arith
