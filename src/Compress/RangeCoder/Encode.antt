-- ===== src/Compress/RangeCoder/Encode.antt =====
-- `Encode` narrows the interval exactly, renormalises it in at most three rounds, and `Flush` writes
-- the whole number out.
use native.Mathlib.Decide.{dec_lt}
use native.Mathlib.Nat.{pow-suc, mul_assoc, mul-le-mul_right, mul-div-le, le-div_iff_mul-le}
use rdx.Base.{
  ℕ, zero, suc, ◌+◌, ◌*◌, ◌/◌, ◌^◌, ◌<◌, ◌≤◌, ◌≡◌, sym, ap, ◌∙◌, [], ◌++◌, arith, Bytes, u32, u64,
  false, ltb, lt→ltb, some,
}
use rdx.Compress.RangeCoder.{init, RangeEnc, init, fuel, shift_low, normalize, narrow, encode}
use rdx.Compress.RangeCoder.Value.{value, value-append, whole, Fits, pending}
use rdx.Compress.RangeCoder.Shift.{Shifted, widen, shift_low-Shifted}

-- Between calls: the invariant, and a range of 25 to 32 bits.
pub record IsReady (s : RangeEnc) : Type 0 where
  pub fits : Fits s
  pub wide : 16777216 ≤ s.range
  pub range_lt : s.range < 4294967296

-- What renormalising makes of a state: k rounds multiply number and range alike.
pub record Scaled (acc : ℕ) (s : RangeEnc) (k : ℕ) (out : Bytes × RangeEnc) : Type 0 where
  pub exact : whole (value acc out.0) out.1 ≡ 256 ^ k * whole acc s
  pub wider : out.1.range ≡ 256 ^ k * s.range
  pub few : out.1.cache_size ≤ s.cache_size + k

Scaled-here : (acc : ℕ) (s : RangeEnc) → Scaled acc s 0 ([], s)
unfolding value
Scaled-here acc s = record { exact = omega arith; wider = omega arith; few = omega arith }

Scaled-next :
    (acc : ℕ) (s : RangeEnc) (k : ℕ) (one rest : Bytes × RangeEnc)
    → Shifted acc s one
    → Scaled (value acc one.0) one.1 k rest
    → Scaled acc s (suc k) (one.0 ++ rest.0, rest.1)
Scaled-next acc s k one rest sh sc = record {
  exact =
      ap (λ v. whole v rest.1) (value-append one.0 rest.0 acc)
      ∙ sc.exact
      ∙ ap (◌*◌ (256 ^ k)) sh.exact
      ∙ sym (mul_assoc (256 ^ k) 256 (whole acc s))
      ∙ ap (λ p. p * whole acc s) (sym (pow-suc 256 k));
  wider =
      sc.wider
      ∙ ap (◌*◌ (256 ^ k)) sh.wider
      ∙ sym (mul_assoc (256 ^ k) 256 s.range)
      ∙ ap (λ p. p * s.range) (sym (pow-suc 256 k));
  few = omega (arith, sc.few, sh.one_more);
}

normalize_stop : (f : ℕ) (s : RangeEnc) → 16777216 ≤ s.range → normalize (suc f) s ≡ some ([], s)
unfolding normalize
normalize_stop f s h =
    let test : ltb s.range 16777216 ≡ false = ground arith in rw (test, normalize)

normalize_step :
    (f : ℕ) (s : RangeEnc) {out : Bytes × RangeEnc}
    → s.range < 16777216
    → normalize f (shift_low (widen s)).1 ≡ some out
    → normalize (suc f) s ≡ some ((shift_low (widen s)).0 ++ out.0, out.1)
unfolding normalize
normalize_step f s h e = rw (lt→ltb s.range 16777216 h, e, normalize)

-- With enough fuel the loop ends, in a state that is ready.
pub normalize-Scaled :
    (f acc : ℕ) (s : RangeEnc)
    → Fits s
    → 1 ≤ s.range
    → s.range < 4294967296
    → 16777216 ≤ s.range * 256 ^ f
    → s.cache_size + f < 4294967296
    → (out : Bytes × RangeEnc) × (k : ℕ) × (normalize (suc f) s ≡ some out)
      × (k ≤ f)
      × Scaled acc s k out
      × IsReady out.1
normalize-Scaled zero acc s fits pos lt enough few =
    let wide : 16777216 ≤ s.range = omega arith in
    (
      ([], s),
      0,
      normalize_stop 0 s wide,
      omega arith,
      Scaled-here acc s,
      record { fits = fits; wide = wide; range_lt = lt },
    )
normalize-Scaled (suc f) acc s fits pos lt enough few = elim (dec_lt s.range 16777216) [
  | no wide ↦ (
    ([], s),
    0,
    normalize_stop (suc f) s (omega arith),
    omega arith,
    Scaled-here acc s,
    record { fits = fits; wide = omega arith; range_lt = lt },
  )
  | yes narrow' ↦
      let sh = shift_low-Shifted acc s fits pos narrow' (omega arith) in
      let t = (shift_low (widen s)).1 in
      let enough' : 16777216 ≤ t.range * 256 ^ f =
        omega (arith, ap (λ r. r * 256 ^ f) sh.wider, ap (◌*◌ s.range) (pow-suc 256 f)) in
      let (out, k, run, le, sc, ready) =
        normalize-Scaled f (value acc (shift_low (widen s)).0) t sh.fits (omega (arith, sh.wider))
          (omega (arith, sh.wider)) enough' (omega (arith, sh.one_more)) in
      (
        ((shift_low (widen s)).0 ++ out.0, out.1),
        suc k,
        normalize_step (suc f) s narrow' run,
        omega arith,
        Scaled-next acc s k (shift_low (widen s)) out sh sc,
        ready,
      )
]

module _ (start size total : ℕ) (s : RangeEnc) (ready : IsReady s) (nonempty : 1 ≤ size)
    (within : start + size ≤ total) (small : total < 1000) where
  abbrev unit : ℕ
  unit = s.range / total

  unit_fits : (1 ≤ unit) × (start * unit + unit * size ≤ s.range)
  unit_fits =
      let le : total * unit ≤ s.range = mul-div-le s.range total in
      let some_unit : 1 ≤ unit =
        (le-div_iff_mul-le {k = total} {x = 1} {y = s.range} (omega arith)).1
          (omega (arith, ready.wide)) in
      let split : (start + size) * unit ≤ total * unit = mul-le-mul_right unit within in
      (some_unit, omega arith)

  narrow_parts :
      narrow start size total s ≡ record s { low = s.low + start * unit; range = unit * size }
  unfolding narrow
  narrow_parts =
      let a : u32 (start * unit) ≡ start * unit = omega (arith, unit_fits, ready.range_lt) in
      let b : u32 (unit * size) ≡ unit * size = omega (arith, unit_fits, ready.range_lt) in
      let c : u64 (s.low + start * unit) ≡ s.low + start * unit =
        omega (arith, unit_fits, ready.fits.low_lt) in
      rw (a, b, c)

  abbrev narrowed : RangeEnc
  narrowed = record s { low = s.low + start * unit; range = unit * size }

  narrowed-Fits : Fits narrowed
  unfolding pending
  narrowed-Fits = record {
    started = ready.fits.started;
    byte = ready.fits.byte;
    low_lt = omega (arith, ready.fits.low_lt, unit_fits);
    room = omega (arith, ready.fits.room, unit_fits);
  }

  narrowed-whole : (acc : ℕ) → whole acc narrowed ≡ whole acc s + start * unit
  unfolding whole pending
  narrowed-whole acc = omega arith

  -- For a ready state, an interval of positive size that lies within a total below 1000, and less
  -- than 2 ^ 32 - 3 pending bytes, `Encode` returns. The bytes and the state that it leaves stand
  -- for exactly the number before, advanced by `start` units and multiplied by 256 for each round
  -- of renormalising, which are at most three; the new range is `size` units so multiplied, and the
  -- state is ready again.
  pub encode_exact :
      (acc : ℕ)
      → s.cache_size + 3 < 4294967296
      → (out : Bytes × RangeEnc) × (k : ℕ) × (encode start size total s ≡ some out)
        × (k ≤ 3)
        × (whole (value acc out.0) out.1 ≡ 256 ^ k * (whole acc s + start * unit))
        × (out.1.range ≡ 256 ^ k * (unit * size))
        × (out.1.cache_size ≤ s.cache_size + k)
        × IsReady out.1
  unfolding encode
  encode_exact acc few =
      let pos : 1 * 1 ≤ unit * size = grind (arith, unit_fits) in
      let (out, k, run, le, sc, ready') =
        normalize-Scaled 3 acc narrowed narrowed-Fits (omega arith)
          (omega (arith, unit_fits, ready.range_lt)) (omega arith) few in
      (
        out,
        k,
        ap (normalize fuel) narrow_parts ∙ run,
        le,
        sc.exact ∙ ap (◌*◌ (256 ^ k)) (narrowed-whole acc),
        sc.wider,
        sc.few,
        ready',
      )

pub init-IsReady : IsReady init
unfolding init pending
init-IsReady = record {
  fits = record {
    started = omega arith;
    byte = omega arith;
    low_lt = omega arith;
    room = omega arith;
  };
  wide = omega arith;
  range_lt = omega arith;
}
