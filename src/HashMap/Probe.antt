-- ===== src/HashMap/Probe.antt =====
-- What the search of a hash table finds: `FindElementIndex` of src/rdx/rdx_hashmap.hpp.
use mathlib.Core.Path.{subst}
use rdx.Base.{
  ℕ, zero, suc, ◌<◌, ◌≡◌, refl, ◌⊎◌, inl, inr, Bool, true, false, List, Option, none, some, arith,
  if◌then◌else◌, length, Bool-cases,
}
use rdx.HashMap.{
  ElementType, empty, deleted, contains_data, loose, filled, Entry, Keys, is_filled, is_empty,
  is_deleted, entry_element, is_match, next_index, find_loop,
}

-- The index of a round of the search.
abbrev pub probe : ℕ → ℕ → ℕ → ℕ
probe num_entries zero idx = idx
probe num_entries (suc j) idx = probe num_entries j (next_index num_entries idx)

either {ℓ} : {A : Type ℓ} (b : Bool) (x : A) → (if b then x else x) ≡ x
either true x = refl
either false x = refl

ℕ-cases : (n : ℕ) → (n ≡ 0) ⊎ ((m : ℕ) × (n ≡ suc m))
ℕ-cases zero = inl refl
ℕ-cases (suc n) = inr (n, refl)

module _ {ℓ} {K V : Type ℓ} (keys : Keys K V) (entries : List (Entry K V)) where
  abbrev pub kind_at : ℕ → ElementType
  kind_at i = (entry_element keys entries i).element_type

  abbrev pub at_round : ℕ → ℕ → ElementType
  at_round j idx = kind_at (probe (length entries) j idx)

  -- A round below a bound whose entry is filled and matches, with no empty entry before it.
  pub record Meets (ckey : K) (hash rounds idx : ℕ) : Type 0 where
    pub round : ℕ
    pub below : round < rounds
    pub is_full : is_filled (at_round round idx) ≡ true
    pub matches :
        is_match keys ckey hash (entry_element keys entries (probe (length entries) round idx))
        ≡ true
    pub before : (i : ℕ) → i < round → is_empty (at_round i idx) ≡ false

  Meets-later :
      (ckey : K) (hash rounds idx : ℕ) (m : Meets ckey hash (suc rounds) idx) (j : ℕ)
      → m.round ≡ suc j
      → Meets ckey hash rounds (next_index (length entries) idx)
  Meets-later ckey hash rounds idx m j e = record {
    round = j;
    below = omega (arith, m.below, e);
    is_full = subst (λ i. is_filled (at_round i idx) ≡ true) e m.is_full;
    matches =
        subst
          (λ i.
            is_match keys ckey hash (entry_element keys entries (probe (length entries) i idx))
            ≡ true)
          e m.matches;
    before = λ i lt. m.before (suc i) (omega (arith, e, lt));
  }

  found_later :
      (passed matched : Bool) (rest : Bool × ℕ) (idx : ℕ)
      → rest.0 ≡ true
      → (if passed then rest else if matched then (true, idx) else rest).0 ≡ true
  found_later true matched rest idx h = h
  found_later false true rest idx h = refl
  found_later false false rest idx h = h

  pub filled-kinds :
      (k : ElementType) → is_filled k ≡ true → (is_empty k ≡ false) × (is_deleted k ≡ false)
  filled-kinds filled h = (refl, refl)
  filled-kinds empty h = cc
  filled-kinds deleted h = cc
  filled-kinds contains_data h = cc
  filled-kinds loose h = cc

  -- A key that is met is found.
  pub find_loop-Meets :
      (ckey : K) (hash rounds idx : ℕ) (insertable : Option ℕ)
      → Meets ckey hash rounds idx
      → (find_loop keys entries ckey hash rounds idx insertable).0 ≡ true
  unfolding find_loop
  find_loop-Meets ckey hash zero idx insertable m = absurd (omega (arith, m.below))
  find_loop-Meets ckey hash (suc rounds) idx insertable m = elim (ℕ-cases m.round) [
    | inl z ↦
        let full = subst (λ i. is_filled (at_round i idx) ≡ true) z m.is_full in
        let here =
          subst
            (λ i.
              is_match keys ckey hash (entry_element keys entries (probe (length entries) i idx))
              ≡ true)
            z m.matches in
        let (e, d) = filled-kinds (kind_at idx) full in rw (e, d, here) refl
    | inr (j, e) ↦
        let on = m.before 0 (omega (arith, e)) in
        rw on (
          found_later _ _ _ idx (
            find_loop-Meets ckey hash rounds (next_index (length entries) idx) _
              (Meets-later ckey hash rounds idx m j e)))
  ]

  -- An index that a round below a bound comes to, with an entry that matches and is in use.
  pub record Lands (ckey : K) (hash rounds idx r : ℕ) : Type 0 where
    pub round : ℕ
    pub below : round < rounds
    pub place : r ≡ probe (length entries) round idx
    pub matches : is_match keys ckey hash (entry_element keys entries r) ≡ true
    pub used : (is_empty (kind_at r) ≡ false) × (is_deleted (kind_at r) ≡ false)

  Lands-later :
      (ckey : K) (hash rounds idx r : ℕ)
      → Lands ckey hash rounds (next_index (length entries) idx) r
      → Lands ckey hash (suc rounds) idx r
  Lands-later ckey hash rounds idx r l = record {
    round = suc l.round;
    below = omega (arith, l.below);
    place = l.place;
    matches = l.matches;
    used = l.used;
  }

  pub find_loop-Lands :
      (ckey : K) (hash rounds idx : ℕ) (insertable : Option ℕ)
      → (find_loop keys entries ckey hash rounds idx insertable).0 ≡ true
      → Lands ckey hash rounds idx (find_loop keys entries ckey hash rounds idx insertable).1
  unfolding find_loop
  find_loop-Lands ckey hash zero idx insertable = λ h. cc
  find_loop-Lands ckey hash (suc rounds) idx insertable =
      let later =
        λ (o : Option ℕ)
            (h : (find_loop keys entries ckey hash rounds (next_index (length entries) idx) o).0
              ≡ true).
          Lands-later ckey hash rounds idx _
            (find_loop-Lands ckey hash rounds (next_index (length entries) idx) o h) in
      elim (Bool-cases (is_empty (kind_at idx))) [
        | inl e ↦ rw e (λ h. cc)
        | inr e ↦ elim (Bool-cases (is_deleted (kind_at idx))) [
          | inl d ↦ rw (e, d) (later _)
          | inr d ↦ elim (Bool-cases (is_match keys ckey hash (entry_element keys entries idx))) [
            | inl m ↦
                rw (e, d, m)
                  (λ _. record {
                    round = 0;
                    below = omega arith;
                    place = refl;
                    matches = m;
                    used = (e, d);
                  })
            | inr m ↦ rw (e, d, m) (later _)
          ]
        ]
      ]

  -- The index for a key that is not found: the first entry of the search that is not filled, unless
  -- all of them are.
  pub record Free (rounds idx r : ℕ) : Type 0 where
    pub round : ℕ
    pub below : round < rounds
    pub place : r ≡ probe (length entries) round idx
    pub vacant : is_filled (kind_at r) ≡ false
    pub before : (i : ℕ) → i < round → is_filled (at_round i idx) ≡ true

  abbrev pub AllFilled : ℕ → ℕ → Type 0
  AllFilled rounds idx = (i : ℕ) → i < rounds → is_filled (at_round i idx) ≡ true

  -- Once an index to insert at was hit, it stays.
  find_loop-kept :
      (ckey : K) (hash rounds idx i : ℕ)
      → (find_loop keys entries ckey hash rounds idx (some i)).0 ≡ false
      → (find_loop keys entries ckey hash rounds idx (some i)).1 ≡ i
  unfolding find_loop
  find_loop-kept ckey hash zero idx i = λ h. refl
  find_loop-kept ckey hash (suc rounds) idx i =
      let later = find_loop-kept ckey hash rounds (next_index (length entries) idx) i in
      rw (either (is_filled (kind_at idx)) (some i)) (elim (Bool-cases (is_empty (kind_at idx))) [
        | inl e ↦ rw e (λ _. refl)
        | inr e ↦ elim (Bool-cases (is_deleted (kind_at idx))) [
          | inl d ↦ rw (e, d) later
          | inr d ↦ elim (Bool-cases (is_match keys ckey hash (entry_element keys entries idx))) [
            | inl m ↦ rw (e, d, m) (λ h. cc)
            | inr m ↦ rw (e, d, m) later
          ]
        ]
      ])

  cons_round :
      (idx : ℕ)
      → is_filled (kind_at idx) ≡ true
      → (n : ℕ)
      → ((i : ℕ) → i < n → is_filled (at_round i (next_index (length entries) idx)) ≡ true)
      → (i : ℕ) → i < suc n
      → is_filled (at_round i idx) ≡ true
  cons_round idx f n all zero lt = f
  cons_round idx f n all (suc i) lt = all i (omega (arith, lt))

  Free-here :
      (rounds idx r : ℕ) → is_filled (kind_at idx) ≡ false → r ≡ idx → Free (suc rounds) idx r
  Free-here rounds idx r f e = record {
    round = 0;
    below = omega arith;
    place = e;
    vacant = rw e f;
    before = λ i lt. absurd (omega (arith, lt));
  }

  Free-later :
      (rounds idx r : ℕ)
      → is_filled (kind_at idx) ≡ true
      → Free rounds (next_index (length entries) idx) r
        ⊎ AllFilled rounds (next_index (length entries) idx)
      → Free (suc rounds) idx r ⊎ AllFilled (suc rounds) idx
  Free-later rounds idx r f (inl free) = inl (record {
    round = suc free.round;
    below = omega (arith, free.below);
    place = free.place;
    vacant = free.vacant;
    before = cons_round idx f free.round free.before;
  })
  Free-later rounds idx r f (inr all) = inr (cons_round idx f rounds all)

  pub find_loop-Free :
      (ckey : K) (hash rounds idx : ℕ)
      → (find_loop keys entries ckey hash rounds idx none).0 ≡ false
      → Free rounds idx (find_loop keys entries ckey hash rounds idx none).1 ⊎ AllFilled rounds idx
  unfolding find_loop
  find_loop-Free ckey hash zero idx = λ h. inr (λ i lt. absurd (omega (arith, lt)))
  find_loop-Free ckey hash (suc rounds) idx = elim (Bool-cases (is_filled (kind_at idx))) [
    | inl f ↦
        let (e, d) = filled-kinds (kind_at idx) f in
        elim (Bool-cases (is_match keys ckey hash (entry_element keys entries idx))) [
          | inl m ↦ rw (f, e, d, m) (λ h. cc)
          | inr m ↦
              rw (f, e, d, m)
                (λ h.
                  Free-later rounds idx _ f
                    (find_loop-Free ckey hash rounds (next_index (length entries) idx) h))
        ]
    | inr f ↦
        let kept = find_loop-kept ckey hash rounds (next_index (length entries) idx) idx in
        elim (Bool-cases (is_empty (kind_at idx))) [
          | inl e ↦ rw (f, e) (λ h. inl (Free-here rounds idx idx f refl))
          | inr e ↦ elim (Bool-cases (is_deleted (kind_at idx))) [
            | inl d ↦ rw (f, e, d) (λ h. inl (Free-here rounds idx _ f (kept h)))
            | inr d ↦ elim (Bool-cases (is_match keys ckey hash (entry_element keys entries idx))) [
              | inl m ↦ rw (f, e, d, m) (λ h. cc)
              | inr m ↦ rw (f, e, d, m) (λ h. inl (Free-here rounds idx _ f (kept h)))
            ]
          ]
        ]
  ]
