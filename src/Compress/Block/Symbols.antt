-- ===== src/Compress/Block/Symbols.antt =====
-- The symbols that the model and the range coder code, one behind the other:
-- src/rdxcompression/rdx_comp_sm.cpp and rdx_comp_rangecoder.cpp.
use mathlib.Core.List.{append_assoc}
use rdx.Base.{
  ℕ, ◌+◌, ◌*◌, ◌<◌, ◌≤◌, ◌≡◌, refl, sym, ap, ◌∙◌, inl, inr, List, [], ◌∷◌, ◌++◌, ◌==◌, arith, Bytes,
  length, Bool-cases,
}
use rdx.Base.Run.{Run, ok, ◌>>=◌, bind_ok, bind_assoc, bind_pointwise}
use rdx.Compress.Model.{ModelSet, Interval, classify, encode}
use rdx.Compress.Model.Totals.{IsValid}
use rdx.Compress.Model.Intervals.{AllIntervals, encode-IsValid}
use rdx.Compress.RangeCoder.{RangeEnc}
use rdx.Compress.RangeCoder.Encode.{IsReady, encode_exact}
use rdx.Compress.Block.{encode_intervals, encode_symbols}

-- Intervals that are valid are coded, each with at most three more pending bytes.
pub encode_intervals-ok :
    (is : List Interval) (rc : RangeEnc)
    → AllIntervals is
    → IsReady rc
    → rc.cache_size + 3 * length is < 4294967296
    → (a : Bytes × RangeEnc) × (encode_intervals is rc ≡ ok a)
      × IsReady a.1
      × (a.1.cache_size ≤ rc.cache_size + 3 * length is)
unfolding encode_intervals
encode_intervals-ok [] rc h ready small = (([], rc), refl, ready, omega arith)
encode_intervals-ok (i ∷ is) rc h ready small =
    let (out, k, run, le, _, _, more, ready') =
      encode_exact i.start i.size i.total rc ready h.0.nonempty h.0.within h.0.narrow 0
        (omega (arith, small)) in
    let (a, run', ready'', more') =
      encode_intervals-ok is out.1 h.1 ready' (omega (arith, small, le, more)) in
    ((out.0 ++ a.0, a.1), rw (run, run') refl, ready'', omega (arith, more, le, more'))

abbrev pub AllSymbols : List ℕ → Type 0
AllSymbols [] = Unit {0}
AllSymbols (x ∷ xs) = (x < 257) × AllSymbols xs

length-encode : (symbol : ℕ) (s : ModelSet) → length (encode symbol s).0 ≤ 2
unfolding encode
length-encode symbol s = elim (Bool-cases ((classify symbol).second_model == 0)) [
  | inl plain ↦ rw plain (omega arith)
  | inr paired ↦ rw paired (omega arith)
]

-- Symbols are coded from a valid model and a ready coder, each with at most six more pending bytes.
pub encode_symbols-ok :
    (xs : List ℕ) (m : ModelSet) (rc : RangeEnc)
    → AllSymbols xs
    → IsValid m
    → IsReady rc
    → rc.cache_size + 6 * length xs < 4294967296
    → (a : Bytes × ModelSet × RangeEnc) × (encode_symbols xs m rc ≡ ok a)
      × IsValid a.1
      × IsReady a.2
      × (a.2.cache_size ≤ rc.cache_size + 6 * length xs)
unfolding encode_symbols
encode_symbols-ok [] m rc h valid ready small = (([], m, rc), refl, valid, ready, omega arith)
encode_symbols-ok (x ∷ xs) m rc h valid ready small =
    let (valid', intervals) = encode-IsValid x valid h.0 in
    let two = length-encode x m in
    let (a, run, ready', more) =
      encode_intervals-ok (encode x m).0 rc intervals ready (omega (arith, small, two)) in
    let (b, run', valid'', ready'', more') =
      encode_symbols-ok xs (encode x m).1 a.1 h.1 valid' ready' (omega (arith, small, two, more)) in
    ((a.0 ++ b.0, b.1, b.2), rw (run, run') refl, valid'', ready'', omega (arith, more, more', two))

-- the rest of the symbols behind the first
abbrev pub continued : List ℕ → Bytes × ModelSet × RangeEnc → Run (Bytes × ModelSet × RangeEnc)
continued ys (bytes, m, rc) =
    encode_symbols ys m rc >>= λ (rest, m', rc'). ok (bytes ++ rest, m', rc')

-- bytes before those of a run
abbrev prefixed : Bytes → Bytes × ModelSet × RangeEnc → Run (Bytes × ModelSet × RangeEnc)
prefixed before (rest, m, rc) = ok (before ++ rest, m, rc)

behind :
    (xs ys : List ℕ) (m : ModelSet) (rc : RangeEnc) (before : Bytes)
    → encode_symbols (xs ++ ys) m rc ≡ (encode_symbols xs m rc >>= continued ys)
    → (encode_symbols (xs ++ ys) m rc >>= prefixed before)
      ≡ (encode_symbols xs m rc >>= prefixed before >>= continued ys)
behind xs ys m rc before e =
    ap (λ r. r >>= prefixed before) e
    ∙ bind_assoc (encode_symbols xs m rc) (continued ys) (prefixed before)
    ∙ bind_pointwise (encode_symbols xs m rc) _ _ (λ b.
      bind_assoc (encode_symbols ys b.1 b.2) _ (prefixed before)
      ∙ bind_pointwise (encode_symbols ys b.1 b.2) _ _
          (λ c. ap (λ bytes. ok (bytes, c.1, c.2)) (sym (append_assoc before b.0 c.0))))
    ∙ sym (bind_assoc (encode_symbols xs m rc) (prefixed before) (continued ys))

-- Symbols behind others are coded from the state that those leave.
pub encode_symbols-append :
    (xs ys : List ℕ) (m : ModelSet) (rc : RangeEnc)
    → encode_symbols (xs ++ ys) m rc ≡ (encode_symbols xs m rc >>= continued ys)
unfolding encode_symbols
encode_symbols-append [] ys m rc = sym (bind_ok (encode_symbols ys m rc))
encode_symbols-append (x ∷ xs) ys m rc =
    bind_pointwise (encode_intervals (encode x m).0 rc) _ _
      (λ a. behind xs ys (encode x m).1 a.1 a.0 (encode_symbols-append xs ys (encode x m).1 a.1))
    ∙ sym (bind_assoc (encode_intervals (encode x m).0 rc) _ (continued ys))
