-- ===== src/Compress/Block/Loop.antt =====
-- The loop of `R5CompressBlock` of src/rdxcompression/rdx_comp_cblock.cpp against the stages one
-- after the other.
use mathlib.Core.List.{append-nil, append_assoc}
use rdx.Base.{
  ℕ, ◌+◌, ◌*◌, ◌<◌, ◌≡◌, refl, sym, ap, ◌∙◌, inl, inr, true, false, List, [], ◌∷◌, ◌++◌, Option,
  none, some, leb, if◌then◌else◌, arith, Bytes, AllBytes, length, Bool-cases, length-append,
}
use rdx.Base.Run.{ok, ◌>>=◌}
use rdx.Compress.Rle0.{Rle0, flush}
use rdx.Compress.Mtf.{Stage}
use rdx.Compress.Mtf
use rdx.Compress.Mtf.Stream
use rdx.Compress.Rle0
use rdx.Compress.Block.{Coder, encode_symbols, block_loop}
use rdx.Compress.Block.Symbols.{continued, encode_symbols-append}
use rdx.Compress.Block.Fit.{Fit, Encoded, encode_byte-Encoded, ranked}

-- The run-length stage over a list of ranks, the last run left open.
unfoldable pub encode_ranks : Bytes → Rle0 → List ℕ × Rle0
encode_ranks [] s = ([], s)
encode_ranks (p ∷ ps) s =
    let (xs, t) = Rle0.encode p s in let (ys, u) = encode_ranks ps t in (xs ++ ys, u)

pub encode_all-ranks :
    (ps : Bytes) (s : Rle0)
    → Rle0.encode_all ps s
      ≡ ((encode_ranks ps s).0 ++ (flush (encode_ranks ps s).1).0, (flush (encode_ranks ps s).1).1)
unfolding encode_ranks Rle0.encode_all
encode_all-ranks [] s = refl
encode_all-ranks (p ∷ ps) s =
    let t = (Rle0.encode p s).1 in
    let xs = (Rle0.encode p s).0 in
    let rest = encode_all-ranks ps t in
    ap (λ (r : List ℕ × Rle0). (xs ++ r.0, r.1)) rest
    ∙ ap (λ zs. (zs, (flush (encode_ranks ps t).1).1))
        (sym (append_assoc xs (encode_ranks ps t).0 (flush (encode_ranks ps t).1).0))

-- the symbols of the rest of a block
abbrev pub symbols_of : Bytes → Coder → List ℕ × Rle0
symbols_of vs c = encode_ranks (Mtf.Stream.encode_all vs c.mtf).0 c.rle0

-- what the loop leaves, where it is to write less than a bound
abbrev pub within : ℕ → Bytes → Coder → Option (Bytes × Coder)
within bitstream_max all c = if leb bitstream_max (length all) then none else some (all, c)

pub record Looped (n : ℕ) (vs : Bytes) (c : Coder) (a : Bytes × Coder) : Type 0 where
  pub symbols : encode_symbols (symbols_of vs c).0 c.smodel c.rc ≡ ok (a.0, a.1.smodel, a.1.rc)
  pub rle0 : a.1.rle0 ≡ (symbols_of vs c).1
  pub fit : Fit (n + 180 * length vs) a.1
  pub run :
      (bitstream_max : ℕ) (written : Bytes)
      → length written < bitstream_max
      → block_loop bitstream_max vs written c ≡ ok (within bitstream_max (written ++ a.0) a.1)

Looped-nil : (n : ℕ) (c : Coder) → Fit n c → Looped n [] c ([], c)
unfolding encode_ranks encode_symbols block_loop Mtf.Stream.encode_all
Looped-nil n c f = record {
  symbols = refl;
  rle0 = refl;
  fit = record {
    order = f.order;
    inverse = f.inverse;
    valid = f.valid;
    ready = f.ready;
    few = omega (arith, f.few);
  };
  run = λ bitstream_max written lt.
      let same = append-nil written in
      let less : leb bitstream_max (length written) ≡ false = ground arith in rw (same, less) refl;
}

pub leb_longer :
    (m : ℕ) (xs ys : Bytes) → leb m (length xs) ≡ true → leb m (length (xs ++ ys)) ≡ true
leb_longer m xs ys h = let both = length-append xs ys in ground arith

leb_shorter : (m : ℕ) (xs : Bytes) → leb m (length xs) ≡ false → length xs < m
leb_shorter m xs h = ground arith

module _ (n v : ℕ) (vs : Bytes) (c : Coder) (a : Bytes × Coder) (e : Encoded n v c a)
    (b : Bytes × Coder) (l : Looped (n + 180) vs a.1 b) where
  symbols_split :
      (symbols_of (v ∷ vs) c).0 ≡ (Rle0.encode (ranked v c).0 c.rle0).0 ++ (symbols_of vs a.1).0
  unfolding encode_ranks Mtf.Stream.encode_all
  symbols_split = rw (e.mtf, e.rle0) refl

  rle0_split : (symbols_of (v ∷ vs) c).1 ≡ (symbols_of vs a.1).1
  unfolding encode_ranks Mtf.Stream.encode_all
  rle0_split = rw (e.mtf, e.rle0) refl

  run_split :
      (bitstream_max : ℕ) (written : Bytes)
      → block_loop bitstream_max (v ∷ vs) written c
        ≡ ok (within bitstream_max (written ++ (a.0 ++ b.0)) b.1)
  unfolding block_loop
  run_split m written = elim (Bool-cases (leb m (length (written ++ a.0)))) [
    | inl long ↦
        let longer = leb_longer m (written ++ a.0) b.0 long in
        let all = append_assoc written a.0 b.0 in rw (e.run, long, sym all, longer) refl
    | inr short ↦
        rw (e.run, short)
          (l.run m (written ++ a.0) (leb_shorter m (written ++ a.0) short)
            ∙ ap (λ all. ok (within m all b.1)) (append_assoc written a.0 b.0))
  ]

  Looped-cons : Looped n (v ∷ vs) c (a.0 ++ b.0, b.1)
  Looped-cons = record {
    symbols =
        ap (λ xs. encode_symbols xs c.smodel c.rc) symbols_split
        ∙ encode_symbols-append (Rle0.encode (ranked v c).0 c.rle0).0 (symbols_of vs a.1).0 c.smodel
            c.rc
        ∙ ap (λ r. r >>= continued (symbols_of vs a.1).0) e.symbols
        ∙ ap (λ r. r >>= λ (rest, m, rc). ok (a.0 ++ rest, m, rc)) l.symbols;
    rle0 = l.rle0 ∙ sym rle0_split;
    fit = record {
      order = l.fit.order;
      inverse = l.fit.inverse;
      valid = l.fit.valid;
      ready = l.fit.ready;
      few = omega (arith, l.fit.few);
    };
    run = λ m written _. run_split m written;
  }

-- The loop ends, whatever the bound, and codes the symbols of the block.
pub block_loop-Looped :
    (n : ℕ) (vs : Bytes) (c : Coder)
    → AllBytes vs
    → Fit n c
    → n + 180 * length vs < 4294967296
    → (a : Bytes × Coder) × Looped n vs c a
block_loop-Looped n [] c h f small = (([], c), Looped-nil n c f)
block_loop-Looped n (v ∷ vs) c h f small =
    let (a, e) = encode_byte-Encoded n v c h.0 f (omega (arith, small)) in
    let (b, l) = block_loop-Looped (n + 180) vs a.1 h.1 e.fit (omega (arith, small)) in
    ((a.0 ++ b.0, b.1), Looped-cons n v vs c a e b l)
