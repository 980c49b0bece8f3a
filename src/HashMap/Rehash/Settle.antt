-- ===== src/HashMap/Rehash/Settle.antt =====
-- Each entry comes to a place at which a search finds it: the loops of `Rehash` of
-- src/rdx/rdx_hashmap.hpp.
use rdx.Base.{
  ℕ, zero, suc, ◌%◌, ◌<◌, ◌≤◌, ◌≡◌, refl, inl, inr, Bool, true, false, ◌||◌, List, arith,
  Bool-cases,
}
use rdx.Base.Run.{ok}
use rdx.HashMap.{ElementType, Entry, Keys, is_filled, is_empty, next_index, entry_element}
use rdx.HashMap.Probe.{probe, kind_at}
use rdx.HashMap.Rehash.{is_loose, find_destination}

-- the kinds that stand in the array during a rehash
abbrev pub is_rehashing : ElementType → Bool
is_rehashing k = is_filled k || is_loose k || is_empty k

pub loose-not_filled : (k : ElementType) → is_loose k ≡ true → is_filled k ≡ false
loose-not_filled k h = ground arith

module _ {ℓ} {K V : Type ℓ} (keys : Keys K V) (new_count : ℕ) where
  -- An index is reached over filled entries only.
  pub record Placed (entries : List (Entry K V)) (start p : ℕ) : Type 0 where
    pub round : ℕ
    pub below : round < new_count
    pub place : probe new_count round start ≡ p
    pub before :
        (j : ℕ) → j < round → is_filled (kind_at keys entries (probe new_count j start)) ≡ true

  abbrev pub start_of : List (Entry K V) → ℕ → ℕ
  start_of entries p = (entry_element keys entries p).hash % new_count

  -- Within the second loop of a rehash: the loose entries stand from `i` to `old_count`, and the
  -- filled ones where a search finds them.
  pub record Settling (i old_count : ℕ) (entries : List (Entry K V)) : Type 0 where
    pub kinds : (p : ℕ) → is_rehashing (kind_at keys entries p) ≡ true
    pub waiting : (p : ℕ) → is_loose (kind_at keys entries p) ≡ true → (i ≤ p) × (p < old_count)
    pub placed :
        (p : ℕ) → is_filled (kind_at keys entries p) ≡ true → Placed entries (start_of entries p) p

  -- what the search for a destination gives
  pub record Destination (entries : List (Entry K V)) (start rounds d : ℕ) : Type 0 where
    pub round : ℕ
    pub below : round < rounds
    pub place : probe new_count round start ≡ d
    pub vacant : is_filled (kind_at keys entries d) ≡ false
    pub before :
        (j : ℕ) → j < round → is_filled (kind_at keys entries (probe new_count j start)) ≡ true

  Destination-here :
      (entries : List (Entry K V)) (start rounds : ℕ)
      → is_filled (kind_at keys entries start) ≡ false
      → Destination entries start (suc rounds) start
  Destination-here entries start rounds v = record {
    round = 0;
    below = omega arith;
    place = refl;
    vacant = v;
    before = λ j lt. absurd (omega (arith, lt));
  }

  Destination-later :
      (entries : List (Entry K V)) (start rounds d : ℕ)
      → is_filled (kind_at keys entries start) ≡ true
      → Destination entries (next_index new_count start) rounds d
      → Destination entries start (suc rounds) d
  Destination-later entries start rounds d f l = record {
    round = suc l.round;
    below = omega (arith, l.below);
    place = l.place;
    vacant = l.vacant;
    before = before_suc l.round l.before;
  }
    where
      before_suc :
          (n : ℕ)
          → ((j : ℕ)
              → j < n
              → is_filled (kind_at keys entries (probe new_count j (next_index new_count start)))
                ≡ true)
          → (j : ℕ) → j < suc n
          → is_filled (kind_at keys entries (probe new_count j start)) ≡ true
      before_suc n all zero lt = f
      before_suc n all (suc j) lt = all j (omega (arith, lt))

  -- As many rounds as come to an entry that is not filled are enough.
  pub find_destination-ok :
      (fuel : ℕ) (entries : List (Entry K V)) (start j : ℕ)
      → j < fuel
      → is_filled (kind_at keys entries (probe new_count j start)) ≡ false
      → (d : ℕ) × (find_destination keys fuel new_count entries start ≡ ok d)
        × Destination entries start fuel d
  unfolding find_destination
  find_destination-ok zero entries start j = λ lt v. absurd (omega (arith, lt))
  find_destination-ok (suc fuel) entries start zero =
      λ lt v. rw v (start, refl, Destination-here entries start fuel v)
  find_destination-ok (suc fuel) entries start (suc j) =
      elim (Bool-cases (is_filled (kind_at keys entries start))) [
        | inr f ↦ rw f (λ lt v. (start, refl, Destination-here entries start fuel f))
        | inl f ↦ rw f (λ lt v.
            let (d, e, l) =
              find_destination-ok fuel entries (next_index new_count start) j (omega (arith, lt))
                v in
            (d, e, Destination-later entries start fuel d f l))
      ]
