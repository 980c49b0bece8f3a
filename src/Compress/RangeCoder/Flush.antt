-- ===== src/Compress/RangeCoder/Flush.antt =====
-- `Flush` writes the whole number out.
use mathlib.Core.Path.{subst}
use native.Mathlib.Nat.{pow-suc, mul_assoc}
use rdx.Base.{ℕ, zero, suc, ◌+◌, ◌*◌, ◌^◌, ◌<◌, ◌≤◌, ◌≡◌, refl, sym, ap, ◌∙◌, arith, Bytes}
use rdx.Compress.RangeCoder.{RangeEnc, next_low, shift_low, flush_rounds, flush}
use rdx.Compress.RangeCoder.Value.{value, value-append, whole, Fits, pending}
use rdx.Compress.RangeCoder.Shift.{widen, shift_low-Shifted}
use rdx.Compress.RangeCoder.Encode.{IsReady}

-- A flush does not look at the range.
abbrev unit_range : RangeEnc → RangeEnc
unit_range s = record s { range = 1 }

record Step (acc : ℕ) (s : RangeEnc) (out : Bytes × RangeEnc) : Type 0 where
  fits : Fits (unit_range out.1)
  exact : whole (value acc out.0) out.1 ≡ 256 * whole acc s
  low : out.1.low ≡ next_low s.low
  one_more : out.1.cache_size ≤ s.cache_size + 1
  at_zero : s.low ≡ 0 → (out.1.cache ≡ 0) × (out.1.cache_size ≡ 1)

shift_same :
    (s : RangeEnc)
    → ((shift_low s).0 ≡ (shift_low (widen (unit_range s))).0)
      × (unit_range (shift_low s).1 ≡ unit_range (shift_low (widen (unit_range s))).1)
unfolding shift_low
shift_same s = ground arith

shift_low_facts :
    (s : RangeEnc)
    → ((shift_low s).1.low ≡ next_low s.low)
      × (s.low ≡ 0 → ((shift_low s).1.cache ≡ 0) × ((shift_low s).1.cache_size ≡ 1))
unfolding shift_low
shift_low_facts s = (ground arith, λ z. ground arith)

whole_range : (acc r : ℕ) (s : RangeEnc) → whole acc (record s { range = r }) ≡ whole acc s
unfolding whole pending
whole_range acc r s = refl

Fits-narrow : (s : RangeEnc) → Fits s → 1 ≤ s.range → Fits (unit_range s)
unfolding pending
Fits-narrow s f pos = record {
  started = f.started;
  byte = f.byte;
  low_lt = omega (arith, f.low_lt);
  room = omega (arith, f.room);
}

shift_low-Step :
    (acc : ℕ) (s : RangeEnc)
    → Fits (unit_range s)
    → s.cache_size + 1 < 4294967296
    → Step acc s (shift_low s)
shift_low-Step acc s f few =
    let sh = shift_low-Shifted acc (unit_range s) f (omega arith) (omega arith) few in
    let (bytes, state) = shift_same s in
    record {
      fits = subst Fits (sym state) (Fits-narrow _ sh.fits (omega (arith, sh.wider)));
      exact =
          sym (whole_range _ 1 (shift_low s).1)
          ∙ ap (whole _) state
          ∙ whole_range _ 1 (shift_low (widen (unit_range s))).1
          ∙ ap (λ b. whole (value acc b) (shift_low (widen (unit_range s))).1) bytes
          ∙ sh.exact
          ∙ ap (◌*◌ 256) (whole_range acc 1 s);
      low = (shift_low_facts s).0;
      one_more = omega (arith, ap (λ (t : RangeEnc). t.cache_size) state, sh.one_more);
      at_zero = (shift_low_facts s).1;
    }

flush_rounds-exact :
    (n acc : ℕ) (s : RangeEnc)
    → Fits (unit_range s)
    → s.cache_size + n < 4294967296
    → whole (value acc (flush_rounds n s).0) (flush_rounds n s).1 ≡ 256 ^ n * whole acc s
unfolding flush_rounds
flush_rounds-exact zero acc s f few = unfold value in omega arith
flush_rounds-exact (suc n) acc s f few =
    let step = shift_low-Step acc s f (omega arith) in
    let t = (shift_low s).1 in
    let rest = (flush_rounds n t) in
    ap (λ v. whole v rest.1) (value-append (shift_low s).0 rest.0 acc)
    ∙ flush_rounds-exact n (value acc (shift_low s).0) t step.fits (omega (arith, step.one_more))
    ∙ ap (◌*◌ (256 ^ n)) step.exact
    ∙ sym (mul_assoc (256 ^ n) 256 (whole acc s))
    ∙ ap (λ p. p * whole acc s) (sym (pow-suc 256 n))

flush_cleared :
    (s : RangeEnc)
    → ((flush_rounds 5 s).1.low ≡ 0)
      × ((flush_rounds 5 s).1.cache ≡ 0)
      × ((flush_rounds 5 s).1.cache_size ≡ 1)
unfolding flush_rounds
flush_cleared s =
    let s1 = (shift_low s).1 in
    let s2 = (shift_low s1).1 in
    let s3 = (shift_low s2).1 in
    let s4 = (shift_low s3).1 in
    let l1 = (shift_low_facts s).0 in
    let l2 = (shift_low_facts s1).0 in
    let l3 = (shift_low_facts s2).0 in
    let l4 = (shift_low_facts s3).0 in
    let zero4 : s4.low ≡ 0 = omega arith in
    let (last, clear) = shift_low_facts s4 in
    (last ∙ ap next_low zero4, (clear zero4).0, (clear zero4).1)

cleared_whole :
    (v : ℕ) (t : RangeEnc)
    → t.low ≡ 0
    → t.cache ≡ 0
    → t.cache_size ≡ 1
    → whole v t ≡ v * 1099511627776
unfolding whole pending
cleared_whole v t low cache size = simp (low, cache, size) (omega arith)

-- For a ready state with less than 2 ^ 32 - 5 pending bytes, the bytes that `Flush` writes behind
-- those before make exactly the number that the state stands for.
pub flush_writes :
    (acc : ℕ) (s : RangeEnc)
    → IsReady s
    → s.cache_size + 5 < 4294967296
    → value acc (flush s).0 ≡ whole acc s
unfolding flush
flush_writes acc s ready few =
    let fits = Fits-narrow s ready.fits (omega (arith, ready.wide)) in
    let (low, cache, size) = flush_cleared s in
    let exact = flush_rounds-exact 5 acc s fits few in
    let left : whole (value acc (flush_rounds 5 s).0) (flush_rounds 5 s).1
        ≡ value acc (flush_rounds 5 s).0 * 1099511627776 =
      cleared_whole _ (flush_rounds 5 s).1 low cache size in
    omega (arith, exact, left)
