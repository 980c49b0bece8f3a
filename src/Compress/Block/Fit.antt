-- ===== src/Compress/Block/Fit.antt =====
-- One byte of the block through the stages of src/rdxcompression: the symbols that it makes are
-- coded.
use rdx.Base.{
  ℕ, zero, suc, ◌+◌, ◌<◌, ◌≤◌, ◌≡◌, refl, inl, inr, List, [], ◌∷◌, ◌++◌, ◌==◌, arith, Bytes, length,
  Bool-cases, length-append, u16, u32,
}
use rdx.Base.Run.{ok}
use rdx.Compress.Mtf.{Stage, mtf_variant, write}
use rdx.Compress.Mtf.Inverse.{Inverse, read-write}
use rdx.Compress.Rle0.{Rle0, bit, top_bit, emit_bits, run_symbols, flush}
use rdx.Compress.Rle0.Digits.{length-emit_bits, AllDigits, run_symbols-AllDigits}
use rdx.Compress.Model.Totals.{IsValid}
use rdx.Compress.RangeCoder.Encode.{IsReady}
use rdx.Compress.Mtf
use rdx.Compress.Rle0
use rdx.Compress.Block.{Coder, encode_symbols, encode_byte, flush_run}
use rdx.Compress.Block.Symbols.{AllSymbols, encode_symbols-ok}

AllSymbols-append : (xs ys : List ℕ) → AllSymbols xs → AllSymbols ys → AllSymbols (xs ++ ys)
AllSymbols-append [] ys h g = g
AllSymbols-append (x ∷ xs) ys h g = (h.0, AllSymbols-append xs ys h.1 g)

AllDigits-AllSymbols : (xs : List ℕ) → AllDigits xs → AllSymbols xs
AllDigits-AllSymbols [] h = tt
AllDigits-AllSymbols (x ∷ xs) h = (omega (arith, h.0), AllDigits-AllSymbols xs h.1)

top_bit-le : (n i x acc b : ℕ) → acc ≤ b → i + n ≤ b + 1 → top_bit n i x acc ≤ b
unfolding top_bit
top_bit-le zero i x acc b h l = h
top_bit-le (suc n) i x acc b h l = elim (Bool-cases (bit x i == 1)) [
  | inl set ↦ rw set (top_bit-le n (i + 1) x i b (omega (arith, l)) (omega (arith, l)))
  | inr clear ↦ rw clear (top_bit-le n (i + 1) x acc b h (omega (arith, l)))
]

length-run_symbols : (x : ℕ) → length (run_symbols x) ≤ 29
unfolding run_symbols
length-run_symbols x =
    let few = top_bit-le 29 1 x 0 29 (omega arith) (omega arith) in
    let exact = length-emit_bits (top_bit 29 1 x 0) x in omega (arith, few, exact)

-- What the run-length stage hands on at a flush and for a rank.
flush_symbols : (s : Rle0) → AllSymbols (flush s).0 × (length (flush s).0 ≤ 29)
unfolding flush
flush_symbols s = elim (Bool-cases s.in_run) [
  | inl run ↦
      let n : ℕ = u32 (s.run_length + 1) in
      rw run (AllDigits-AllSymbols (run_symbols n) (run_symbols-AllDigits n), length-run_symbols n)
  | inr idle ↦ rw idle (tt, omega arith)
]

rank_symbols :
    (p : ℕ) (s : Rle0)
    → p < 256
    → AllSymbols (Rle0.encode p s).0 × (length (Rle0.encode p s).0 ≤ 30)
unfolding Rle0.encode
rank_symbols p s h = elim (Bool-cases (p == 0)) [
  | inl zero_rank ↦ rw zero_rank (tt, omega arith)
  | inr other ↦
      let (symbols, few) = flush_symbols s in
      let both = length-append (flush s).0 (u16 (p + 1) ∷ []) in
      rw other (
        AllSymbols-append (flush s).0 (u16 (p + 1) ∷ []) symbols (omega (arith, h), tt),
        omega (arith, few, both),
      )
]

-- What the stages keep, with a bound on the pending bytes.
pub record Fit (n : ℕ) (c : Coder) : Type 0 where
  pub order : List ℕ
  pub inverse : Inverse c.mtf.indexes order
  pub valid : IsValid c.smodel
  pub ready : IsReady c.rc
  pub few : c.rc.cache_size ≤ n

-- the rank of a byte
abbrev pub ranked : ℕ → Coder → ℕ × Stage
ranked v c = Mtf.encode v c.mtf

pub record Encoded (n v : ℕ) (c : Coder) (a : Bytes × Coder) : Type 0 where
  pub run : encode_byte v c ≡ ok a
  pub symbols :
      encode_symbols (Rle0.encode (ranked v c).0 c.rle0).0 c.smodel c.rc
      ≡ ok (a.0, a.1.smodel, a.1.rc)
  pub mtf : a.1.mtf ≡ (ranked v c).1
  pub rle0 : a.1.rle0 ≡ (Rle0.encode (ranked v c).0 c.rle0).1
  pub fit : Fit (n + 180) a.1

pub encode_byte-Encoded :
    (n v : ℕ) (c : Coder)
    → v < 256
    → Fit n c
    → n + 180 < 4294967296
    → (a : Bytes × Coder) × Encoded n v c a
unfolding encode_byte Mtf.encode
encode_byte-Encoded n v c h f small =
    let (_, rank_lt, inverse) = read-write mtf_variant v c.mtf.last f.inverse h in
    let rank = (ranked v c).0 in
    let (symbols, thirty) = rank_symbols rank c.rle0 rank_lt in
    let (b, run, valid, ready, more) =
      encode_symbols-ok (Rle0.encode rank c.rle0).0 c.smodel c.rc symbols f.valid f.ready
        (omega (arith, f.few, small, thirty)) in
    let next : Coder = record {
      rc = b.2;
      smodel = b.1;
      rle0 = (Rle0.encode rank c.rle0).1;
      mtf = (ranked v c).1;
    } in
    (
      (b.0, next),
      record {
        run = rw run refl;
        symbols = run;
        mtf = refl;
        rle0 = refl;
        fit = record {
          order = _;
          inverse = inverse;
          valid = valid;
          ready = ready;
          few = omega (arith, more, f.few, thirty);
        };
      },
    )

pub record Flushed (n : ℕ) (c : Coder) (a : Bytes × Coder) : Type 0 where
  pub run : flush_run c ≡ ok a
  pub symbols : encode_symbols (flush c.rle0).0 c.smodel c.rc ≡ ok (a.0, a.1.smodel, a.1.rc)
  pub rle0 : a.1.rle0 ≡ (flush c.rle0).1
  pub ready : IsReady a.1.rc
  pub few : a.1.rc.cache_size ≤ n + 174

pub flush_run-Flushed :
    (n : ℕ) (c : Coder) → Fit n c → n + 174 < 4294967296 → (a : Bytes × Coder) × Flushed n c a
unfolding flush_run
flush_run-Flushed n c f small =
    let (symbols, few) = flush_symbols c.rle0 in
    let (b, run, valid, ready, more) =
      encode_symbols-ok (flush c.rle0).0 c.smodel c.rc symbols f.valid f.ready
        (omega (arith, f.few, small, few)) in
    (
      (b.0, record c { rc = b.2; smodel = b.1; rle0 = (flush c.rle0).1 }),
      record {
        run = rw run refl;
        symbols = run;
        rle0 = refl;
        ready = ready;
        few = omega (arith, more, f.few, few);
      },
    )
