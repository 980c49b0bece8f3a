-- ===== src/Compress/RangeCoder/Shift.antt =====
-- `ShiftLow` multiplies the number by 256 exactly, whatever carry is pending.
use mathlib.Core.Path.{subst}
use native.Mathlib.Decide.{dec_lt}
use native.Mathlib.Nat.{pow-suc}
use rdx.Base.{
  ℕ, suc, ◌+◌, ◌-◌, ◌*◌, ◌/◌, ◌^◌, ◌<◌, ◌≤◌, ◌≡◌, sym, ap, ◌⊎◌, ◌∷◌, arith, Bytes, u8, u32, true,
  false, not, ◌||◌, ltb, ◌==◌, inl, inr,
}
use rdx.Compress.RangeCoder.{RangeEnc, emit_pending, rounds, next_low, shift_low}
use rdx.Compress.RangeCoder.Value.{
  value, value-emit_calm, value-emit_carry, whole, Fits, parts, pending-parts, whole-parts,
}

-- What `ShiftLow`, behind `m_range <<= 8`, makes of a state.
pub record Shifted (acc : ℕ) (s : RangeEnc) (out : Bytes × RangeEnc) : Type 0 where
  pub fits : Fits out.1
  pub exact : whole (value acc out.0) out.1 ≡ 256 * whole acc s
  pub low_lt : out.1.low < 4294967296
  pub wider : out.1.range ≡ 256 * s.range
  pub one_more : out.1.cache_size ≤ s.cache_size + 1

abbrev pub widen : RangeEnc → RangeEnc
widen s = record s { range = u32 (s.range * 256) }

module _ (low n range cache acc : ℕ) (fits : Fits (parts low n range cache)) (pos : 1 ≤ range)
    (small : range < 16777216) where
  -- the state behind a flush of the pending bytes
  abbrev flushed : RangeEnc
  flushed = parts (next_low low) 0 (u32 (range * 256)) (u8 (u32 low / 16777216))

  emitted : ℕ → Bytes
  emitted carry = u8 (cache + u8 carry) ∷ emit_pending n 0xff carry

  emits_calm : value acc (emitted 0) + 1 ≡ 256 * (acc * 256 ^ n) + cache * 256 ^ n + 256 ^ n
  unfolding emitted value
  emits_calm =
      let byte : u8 (cache + u8 0) ≡ cache = omega arith in
      rw byte (omega (arith, value-emit_calm n (acc * 256 + cache)))

  emits_carry :
      4294967296 ≤ low → value acc (emitted 1) ≡ 256 * (acc * 256 ^ n) + cache * 256 ^ n + 256 ^ n
  unfolding emitted value
  emits_carry over =
      let below : cache * 256 ^ n + 256 ^ n < 256 * 256 ^ n =
        omega (arith, fits.room, pending-parts low n range cache, pow-suc 256 n) in
      let room : cache < 255 = grind (arith) in
      let byte : u8 (cache + u8 1) ≡ cache + 1 = omega arith in
      rw byte (omega (arith, value-emit_carry n (acc * 256 + (cache + 1))))

  flushed-Fits : low < 4278190080 ⊎ 4294967296 ≤ low → Fits flushed
  flushed-Fits range' = record {
    started = omega arith;
    byte = omega arith;
    low_lt = omega arith;
    room = omega (
      arith,
      fits.low_lt,
      pending-parts (next_low low) 0 (u32 (range * 256)) (u8 (u32 low / 16777216)),
    );
  }

  flushed-whole :
      (v : ℕ)
      → whole v flushed + 4294967296
        ≡ (256 * v + u8 (u32 low / 16777216) + 1) * 4294967296 + next_low low
  flushed-whole v =
      omega (arith, whole-parts (next_low low) 0 (u32 (range * 256)) (u8 (u32 low / 16777216)) v)

  exact_calm :
      low < 4278190080
      → whole (value acc (emitted 0)) flushed ≡ 256 * whole acc (parts low n range cache)
  exact_calm calm =
      omega (
        arith,
        flushed-whole (value acc (emitted 0)),
        emits_calm,
        whole-parts low n range cache acc,
      )

  exact_carry :
      4294967296 ≤ low
      → whole (value acc (emitted 1)) flushed ≡ 256 * whole acc (parts low n range cache)
  exact_carry over = omega (
    arith,
    flushed-whole (value acc (emitted 1)),
    emits_carry over,
    fits.low_lt,
    whole-parts low n range cache acc,
  )

  abbrev held : RangeEnc
  held = parts (next_low low) (suc n) (u32 (range * 256)) cache

  held-Fits : 4278190080 ≤ low → low < 4294967296 → Fits held
  held-Fits lo hi = record {
    started = omega arith;
    byte = fits.byte;
    low_lt = omega arith;
    room =
        rw (pow-suc 256 (suc n), pow-suc 256 n)
          (omega (
            arith,
            fits.room,
            pending-parts low n range cache,
            pow-suc 256 n,
            rw (pow-suc 256 n) at (pending-parts (next_low low) (suc n) (u32 (range * 256)) cache),
          ));
  }

  held_exact :
      4278190080 ≤ low
      → low < 4294967296
      → whole acc held ≡ 256 * whole acc (parts low n range cache)
  held_exact lo hi = omega (
    arith,
    whole-parts low n range cache acc,
    rw (pow-suc 256 n) at (whole-parts (next_low low) (suc n) (u32 (range * 256)) cache acc),
  )

  nonzero : rounds (suc n) ≡ suc n
  nonzero = ground arith

  pub shift_low-parts :
      n + 2 < 4294967296
      → Shifted acc (parts low n range cache) (shift_low (widen (parts low n range cache)))
  unfolding shift_low emit_pending emitted value
  shift_low-parts few = elim (dec_lt low 4278190080) [
    | yes calm ↦
        let test : (not (u32 (low / 4294967296) == 0) || ltb (u32 low) 0xff000000) ≡ true =
          ground arith in
        let none : low / 4294967296 ≡ 0 = omega arith in
        rw (test, none, nonzero)
          (record {
            fits = flushed-Fits (inl calm);
            exact = exact_calm calm;
            low_lt = omega arith;
            wider = omega arith;
            one_more = omega arith;
          })
    | no high ↦ elim (dec_lt low 4294967296) [
      | yes under ↦
          let test : (not (u32 (low / 4294967296) == 0) || ltb (u32 low) 0xff000000) ≡ false =
            ground arith in
          let more : u32 (suc n + 1) ≡ suc (suc n) = omega arith in
          rw (test, more)
            (record {
              fits = held-Fits (omega arith) under;
              exact = held_exact (omega arith) under;
              low_lt = omega arith;
              wider = omega arith;
              one_more = omega arith;
            })
      | no over ↦
          let test : (not (u32 (low / 4294967296) == 0) || ltb (u32 low) 0xff000000) ≡ true =
            ground (arith, fits.low_lt) in
          let one : low / 4294967296 ≡ 1 = omega (arith, fits.low_lt) in
          rw (test, one, nonzero)
            (record {
              fits = flushed-Fits (inr (omega arith));
              exact = exact_carry (omega arith);
              low_lt = omega arith;
              wider = omega arith;
              one_more = omega arith;
            })
    ]
  ]

-- For a state that fits, with a range from 1 to 2 ^ 24 - 1 and less than 2 ^ 32 - 1 pending bytes,
-- `m_range <<= 8` and `ShiftLow` multiply the number that bytes and state stand for by 256, make
-- the range 256 times as wide and leave a state that fits with at most one pending byte more.
pub shift_low-Shifted :
    (acc : ℕ) (s : RangeEnc)
    → Fits s
    → 1 ≤ s.range
    → s.range < 16777216
    → s.cache_size + 1 < 4294967296
    → Shifted acc s (shift_low (widen s))
shift_low-Shifted acc s fits pos small few =
    let n : ℕ = s.cache_size - 1 in
    let e : suc n ≡ s.cache_size = omega (arith, fits.started) in
    let same : parts s.low n s.range s.cache ≡ s = ap (λ c. record s { cache_size = c }) e in
    subst (λ t. Shifted acc t (shift_low (widen t))) same
      (shift_low-parts s.low n s.range s.cache acc (subst Fits (sym same) fits) pos small
        (omega arith))
