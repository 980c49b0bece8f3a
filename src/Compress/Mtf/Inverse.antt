-- ===== src/Compress/Mtf/Inverse.antt =====
-- The decoder's array stays the inverse of the encoder's.
use rdx.Base.{
  ℕ, ◌+◌, ◌-◌, ◌<◌, ◌≤◌, ◌≡◌, not, ◌&&◌, List, arith, ltb, leb, ==_iff, ◌==◌, if◌then◌else◌,
  Bool-cases, inl, inr, length, set, length-set, get_or-set,
}
use rdx.Compress.Mtf.{
  Variant, variant0, variant1, variant2, at, raise_below, raise_between, demote_first, shift_up,
  write0, write12, write, read0, read12, read, promotes,
}
use rdx.Compress.Mtf.Loops.{
  length-shift_up, at-shift_up, at-raise_below, at-raise_between, length-demote_first,
  at-demote_first, length-raise_below, length-raise_between,
}

-- `ranks` maps each symbol to its rank and `order` each rank to its symbol.
pub record Inverse (ranks order : List ℕ) : Type 0 where
  pub ranks_size : length ranks ≡ 256
  pub order_size : length order ≡ 256
  pub rank_lt : (v : ℕ) → v < 256 → at ranks v < 256
  pub symbol_lt : (r : ℕ) → r < 256 → at order r < 256
  pub at_rank : (v : ℕ) → v < 256 → at order (at ranks v) ≡ v
  pub at_symbol : (r : ℕ) → r < 256 → at ranks (at order r) ≡ r

module _ {ranks order : List ℕ} (inv : Inverse ranks order) (o : ℕ) (small : o < 256) where
  r : ℕ
  r = at ranks o

  ranks0 :
      (v : ℕ)
      → v < 256
      → at (write0 o ranks).1 v ≡ (
          if v == o
          then 0
          else if ltb (at ranks v) (at ranks o)
          then at ranks v + 1
          else at ranks v)
  unfolding write0
  ranks0 v h = ground (
    arith,
    at-raise_below (at ranks o) ranks v,
    get_or-set (raise_below (at ranks o) ranks) o v 0 0,
    length-raise_below (at ranks o) ranks,
    inv.ranks_size,
    inv.rank_lt v h,
    inv.rank_lt o small,
  )

  order0 :
      (j : ℕ)
      → j < 256
      → at (read0 (at ranks o) order).1 j
        ≡ (if j == 0 then o else if leb j (at ranks o) then at order (j - 1) else at order j)
  unfolding read0
  order0 j h = ground (
    arith,
    at-shift_up (at ranks o) order j,
    get_or-set (shift_up (at ranks o) order) 0 j (at order (at ranks o)) 0,
    length-shift_up (at ranks o) order,
    inv.order_size,
    inv.rank_lt o small,
    inv.at_rank o small,
  )

  pub write0-Inverse : Inverse (write0 o ranks).1 (read0 (at ranks o) order).1
  unfolding write0 read0
  write0-Inverse = record {
    ranks_size = ground (
      arith,
      length-set (raise_below (at ranks o) ranks) o 0,
      length-raise_below (at ranks o) ranks,
      inv.ranks_size,
    );
    order_size = ground (
      arith,
      length-set (shift_up (at ranks o) order) 0 (at order (at ranks o)),
      length-shift_up (at ranks o) order,
      inv.order_size,
    );
    rank_lt = λ v h. ground (arith, ranks0 v h, inv.rank_lt v h, inv.rank_lt o small);
    symbol_lt = λ j h. ground (arith, order0 j h, inv.symbol_lt j h, inv.symbol_lt (j - 1), small);
    at_rank = λ v h. ground (
      arith,
      ranks0 v h,
      order0 (at (write0 o ranks).1 v),
      inv.rank_lt v h,
      inv.rank_lt o small,
      inv.at_rank v h,
      inv.at_rank o small,
    );
    at_symbol = λ j h. ground (
      arith,
      order0 j h,
      ranks0 (at (read0 (at ranks o) order).1 j),
      inv.at_symbol j h,
      inv.at_symbol (j - 1),
      inv.symbol_lt j h,
      inv.symbol_lt (j - 1),
      inv.rank_lt o small,
      inv.at_rank o small,
    );
  }

  swapped_ranks :
      at ranks o ≡ 1
      → (v : ℕ) → v < 256
      → at (set (demote_first ranks) o 0) v
        ≡ (if v == o then 0 else if v == at order 0 then 1 else at ranks v)
  swapped_ranks one v h = ground (
    arith,
    get_or-set (demote_first ranks) o v 0 0,
    length-demote_first ranks,
    inv.ranks_size,
    inv.symbol_lt 0,
    at-demote_first ranks (at order 0) v (omega (arith, inv.symbol_lt 0, inv.ranks_size))
        (omega (arith, inv.ranks_size)) (inv.at_symbol 0 (omega arith))
        (λ k p e. ground (arith, inv.at_rank k, inv.symbol_lt 0 (omega arith))),
  )

  swapped_order :
      (j : ℕ)
      → at (set (set order 0 (at order 1)) 1 (at order 0)) j
        ≡ (if j == 0 then at order 1 else if j == 1 then at order 0 else at order j)
  swapped_order j = ground (
    arith,
    get_or-set (set order 0 (at order 1)) 1 j (at order 0) 0,
    get_or-set order 0 j (at order 1) 0,
    length-set order 0 (at order 1),
    inv.order_size,
  )

  swap-Inverse :
      at ranks o ≡ 1
      → Inverse (set (demote_first ranks) o 0) (set (set order 0 (at order 1)) 1 (at order 0))
  swap-Inverse one =
      let a0 = inv.at_symbol 0 (omega arith) in
      let a1 = inv.at_symbol 1 (omega arith) in
      let l0 = inv.symbol_lt 0 (omega arith) in
      let l1 = inv.symbol_lt 1 (omega arith) in
      let ao = inv.at_rank o small in
      record {
        ranks_size =
            ground (
              arith,
              length-set (demote_first ranks) o 0,
              length-demote_first ranks,
              inv.ranks_size,
            );
        order_size = ground (
          arith,
          length-set (set order 0 (at order 1)) 1 (at order 0),
          length-set order 0 (at order 1),
          inv.order_size,
        );
        rank_lt = λ v h. ground (arith, swapped_ranks one v h, inv.rank_lt v h);
        symbol_lt = λ j h. ground (arith, swapped_order j, inv.symbol_lt j h);
        at_rank = λ v h. ground (
          arith,
          swapped_ranks one v h,
          swapped_order (at (set (demote_first ranks) o 0) v),
          inv.at_rank v h,
        );
        at_symbol = λ j h. ground (
          arith,
          swapped_order j,
          swapped_ranks one (at (set (set order 0 (at order 1)) 1 (at order 0)) j),
          inv.at_symbol j h,
          inv.symbol_lt j h,
        );
      }

  raised_ranks :
      (v : ℕ)
      → v < 256
      → at (set (raise_between (at ranks o) ranks) o 1) v ≡ (
          if v == o
          then 1
          else if not (at ranks v == 0) && ltb (at ranks v) (at ranks o)
          then at ranks v + 1
          else at ranks v)
  raised_ranks v h = ground (
    arith,
    at-raise_between (at ranks o) ranks v,
    get_or-set (raise_between (at ranks o) ranks) o v 1 0,
    length-raise_between (at ranks o) ranks,
    inv.ranks_size,
    inv.rank_lt v h,
    inv.rank_lt o small,
  )

  shifted_order :
      (j : ℕ)
      → j < 256
      → at (set (shift_up (at ranks o) order) 1 (at order (at ranks o))) j ≡ (
          if j == 0
          then at order 0
          else if j == 1
          then o
          else if leb j (at ranks o)
          then at order (j - 1)
          else at order j)
  shifted_order j h = ground (
    arith,
    at-shift_up (at ranks o) order j,
    get_or-set (shift_up (at ranks o) order) 1 j (at order (at ranks o)) 0,
    length-shift_up (at ranks o) order,
    inv.order_size,
    inv.rank_lt o small,
    inv.at_rank o small,
  )

  raise-Inverse :
      2 ≤ at ranks o
      → Inverse
          (set (raise_between (at ranks o) ranks) o 1)
          (set (shift_up (at ranks o) order) 1 (at order (at ranks o)))
  raise-Inverse two = record {
    ranks_size = ground (
      arith,
      length-set (raise_between (at ranks o) ranks) o 1,
      length-raise_between (at ranks o) ranks,
      inv.ranks_size,
    );
    order_size = ground (
      arith,
      length-set (shift_up (at ranks o) order) 1 (at order (at ranks o)),
      length-shift_up (at ranks o) order,
      inv.order_size,
    );
    rank_lt = λ v h. ground (arith, raised_ranks v h, inv.rank_lt v h, inv.rank_lt o small);
    symbol_lt = λ j h. ground (
      arith,
      shifted_order j h,
      inv.symbol_lt j h,
      inv.symbol_lt (j - 1),
      inv.symbol_lt 0,
      small,
    );
    at_rank = λ v h. ground (
      arith,
      raised_ranks v h,
      shifted_order (at (set (raise_between (at ranks o) ranks) o 1) v),
      inv.rank_lt v h,
      inv.rank_lt o small,
      inv.at_rank v h,
      inv.at_rank o small,
    );
    at_symbol = λ j h. ground (
      arith,
      shifted_order j h,
      raised_ranks (at (set (shift_up (at ranks o) order) 1 (at order (at ranks o))) j),
      inv.at_symbol j h,
      inv.at_symbol (j - 1),
      inv.symbol_lt j h,
      inv.symbol_lt (j - 1),
      inv.rank_lt o small,
      inv.at_rank o small,
    );
  }

  write12-Inverse :
      (v : Variant) (last : ℕ)
      → Inverse (write12 v o ranks last).1 (read12 v (at ranks o) order last).1
  unfolding write12 read12
  write12-Inverse v last = elim (Bool-cases (at ranks o == 1)) [
    | inl one ↦ rw one (elim (Bool-cases (promotes v last)) [
      | inl p ↦ rw p (swap-Inverse ((==_iff _ _).0 one))
      | inr p ↦ rw p inv
    ])
    | inr many ↦ rw many (elim (Bool-cases (at ranks o == 0)) [
      | inl front ↦ rw front inv
      | inr far ↦ rw far (raise-Inverse (ground arith))
    ])
  ]

-- For a byte and two arrays that are inverse to each other, under each of the three variants, the
-- decoder gets the byte back from the rank that the encoder writes, the rank is a byte, and the
-- arrays stay inverse.
pub read-write :
    {ranks order : List ℕ} (v : Variant) (o last : ℕ)
    → Inverse ranks order
    → o < 256
    → let w = write v o ranks last in
      let t = read v w.0 order last in (t.0 ≡ o) × (w.0 < 256) × Inverse w.1 t.1
unfolding write read write0 read0 write12 read12
read-write variant0 o last inv h = (inv.at_rank o h, inv.rank_lt o h, write0-Inverse inv o h)
read-write variant1 o last inv h =
    (inv.at_rank o h, inv.rank_lt o h, write12-Inverse inv o h variant1 last)
read-write variant2 o last inv h =
    (inv.at_rank o h, inv.rank_lt o h, write12-Inverse inv o h variant2 last)
