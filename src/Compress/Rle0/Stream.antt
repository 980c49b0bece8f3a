-- ===== src/Compress/Rle0/Stream.antt =====
-- A whole block through the run-length stage, and a decoder of what it emits.
use mathlib.Core.List.{append-nil, append_assoc}
use native.Mathlib.Numerals.{add-one}
use rdx.Base.{
  ℕ, zero, suc, ◌+◌, ◌-◌, ◌*◌, ◌^◌, ◌<◌, ◌≡◌, refl, sym, ap, ◌∙◌, true, false, not, List, [], ◌∷◌,
  ◌++◌, arith, ltb, ◌==◌, if◌then◌else◌, length, replicate, Bytes, AllBytes, u16, u32, Bool-cases,
  inl, inr, lt→ltb, ==_iff, length-append,
}
use rdx.Compress.Rle0.{Rle0, init, top_bit, run_symbols, count_bits, flush, encode, encode_all}
use rdx.Compress.Rle0.Digits.{
  length-emit_bits, numeral, numeral_flushed, AllDigits, run_symbols-AllDigits,
}

-- Digits 0 and 1 extend the numeral of the run before them; any other symbol ends the run and
-- stands for the rank below it. The numeral of no run is 1.
unfoldable pub expand : ℕ → List ℕ → Bytes
expand acc [] = replicate (acc - 1) 0
expand acc (s ∷ ss) =
    if ltb s 2 then expand (acc * 2 + s) ss else replicate (acc - 1) 0 ++ (s - 1) ∷ expand 1 ss

expand_digits :
    (ds : List ℕ) (acc : ℕ) (rest : List ℕ)
    → AllDigits ds
    → expand acc (ds ++ rest) ≡ expand (numeral acc ds) rest
unfolding expand
expand_digits [] acc rest h = refl
expand_digits (d ∷ ds) acc rest h = rw (lt→ltb d 2 h.0) (expand_digits ds (acc * 2 + d) rest h.1)

-- The state between calls: a run is open exactly when its length is not zero.
abbrev pub IsOpen : Rle0 → Type 0
IsOpen s = s.in_run ≡ not (s.run_length == 0)

flush_expands :
    (s : Rle0) (rest : List ℕ)
    → IsOpen s
    → s.run_length + 1 < 2 ^ 30
    → expand 1 ((flush s).0 ++ rest) ≡ expand (s.run_length + 1) rest
unfolding flush
flush_expands s rest e h = elim (Bool-cases s.in_run) [
  | inl run ↦
      let n : ℕ = s.run_length + 1 in
      let small : u32 n ≡ n = omega arith in
      rw (run, small)
        (expand_digits (run_symbols n) 1 rest (run_symbols-AllDigits n)
          ∙ ap (λ t. expand t rest) (numeral_flushed n (omega arith) h))
  | inr idle ↦ let closed : s.run_length ≡ 0 = ground arith in rw (idle, closed)
]

replicate-append_cons : (n : ℕ) (ps : Bytes) → replicate n 0 ++ 0 ∷ ps ≡ 0 ∷ replicate n 0 ++ ps
replicate-append_cons zero ps = refl
replicate-append_cons (suc n) ps = ap (◌∷◌ 0) (replicate-append_cons n ps)

flush_closes : (s : Rle0) → IsOpen s → ((flush s).1.in_run ≡ false) × ((flush s).1.run_length ≡ 0)
unfolding flush
flush_closes s e = ground arith

expand_symbol :
    (n p : ℕ) (rest : List ℕ)
    → 0 < p
    → expand (n + 1) ((p + 1) ∷ rest) ≡ replicate n 0 ++ p ∷ expand 1 rest
unfolding expand
expand_symbol n p rest pos =
    let large : ltb (p + 1) 2 ≡ false = ground arith in
    let less : p + 1 - 1 ≡ p = omega arith in
    let less_run : n + 1 - 1 ≡ n = omega arith in rw (large, less, less_run)

expand_end : (n : ℕ) → expand (n + 1) [] ≡ replicate n 0
unfolding expand
expand_end n = let less : n + 1 - 1 ≡ n = omega arith in rw less

-- A rank other than zero ends the run before it.
encode_rank :
    (p : ℕ) (s : Rle0) (rest : List ℕ)
    → IsOpen s
    → s.run_length + 1 < 2 ^ 30
    → 0 < p
    → p < 256
    → expand 1 ((encode p s).0 ++ rest) ≡ replicate s.run_length 0 ++ p ∷ expand 1 rest
unfolding encode
encode_rank p s rest e h pos small =
    let nz : (p == 0) ≡ false = ground arith in
    let word : u16 (p + 1) ≡ p + 1 = omega arith in
    rw (nz, append_assoc, word)
      (flush_expands s ((p + 1) ∷ rest) e h ∙ expand_symbol s.run_length p rest pos)

encode_closes :
    (p : ℕ) (s : Rle0)
    → IsOpen s
    → (p == 0) ≡ false
    → IsOpen (encode p s).1 × ((encode p s).1.run_length ≡ 0)
unfolding encode
encode_closes p s e nz = ground (arith, flush_closes s e)

encode_opens :
    (p : ℕ) (s : Rle0)
    → s.run_length + 1 < 2 ^ 30
    → (p == 0) ≡ true
    → ((encode p s).0 ≡ []) × IsOpen (encode p s).1 × ((encode p s).1.run_length ≡ s.run_length + 1)
unfolding encode
encode_opens p s h z = ground arith

-- Ranks behind an open run of n zeros.
encode_all_expands :
    (ps : Bytes) (s : Rle0)
    → IsOpen s
    → s.run_length + length ps + 1 < 2 ^ 30
    → AllBytes ps
    → expand 1 (encode_all ps s).0 ≡ replicate s.run_length 0 ++ ps
unfolding encode_all
encode_all_expands [] s e h b =
    ap (expand 1) (sym (append-nil (flush s).0))
    ∙ flush_expands s [] e (omega arith)
    ∙ expand_end s.run_length
    ∙ sym (append-nil _)
encode_all_expands (p ∷ ps) s e h b = elim (Bool-cases (p == 0)) [
  | inl z ↦
      let (silent, opened, longer) = encode_opens p s (omega arith) z in
      let zero : p ≡ 0 = (==_iff p 0).0 z in
      ap (λ xs. expand 1 (xs ++ (encode_all ps (encode p s).1).0)) silent
      ∙ encode_all_expands ps (encode p s).1 opened (omega (arith, longer)) b.1
      ∙ ap (λ k. replicate k 0 ++ ps) (longer ∙ add-one s.run_length)
      ∙ sym (replicate-append_cons s.run_length ps)
      ∙ ap (λ k. replicate s.run_length 0 ++ k ∷ ps) (sym zero)
  | inr nz ↦
      let t = (encode p s).1 in
      encode_rank p s (encode_all ps t).0 e (omega arith) (ground arith) b.0
      ∙ ap (λ xs. replicate s.run_length 0 ++ p ∷ xs)
          (encode_all_expands ps t (encode_closes p s e nz).0
              (omega (arith, (encode_closes p s e nz).1)) b.1
            ∙ ap (λ k. replicate k 0 ++ ps) (encode_closes p s e nz).1)
]

-- For a block of bytes shorter than 2 ^ 30 - 1, expanding the symbols that the run-length stage
-- emits for it, the last run flushed, gives the block back.
pub expand-encode :
    (ps : Bytes) → AllBytes ps → length ps + 1 < 2 ^ 30 → expand 1 (encode_all ps init).0 ≡ ps
unfolding init
expand-encode ps b h = encode_all_expands ps init refl (omega arith) b

count_bits_lem : (bits n : ℕ) → n < 2 ^ 32 → count_bits bits n ≡ u32 (n + bits)
unfolding count_bits
count_bits_lem zero n h = omega (arith, h)
count_bits_lem (suc bits) n h = count_bits_lem bits (u32 (n + 1)) (omega arith) ∙ omega arith

run_counts :
    (x n : ℕ) → n < 2 ^ 32 → count_bits (top_bit 29 1 x 0) n ≡ u32 (n + length (run_symbols x))
unfolding run_symbols
run_counts x n h =
    count_bits_lem (top_bit 29 1 x 0) n h
    ∙ ap (λ k. u32 (n + k)) (sym (length-emit_bits (top_bit 29 1 x 0) x))

flush_counts :
    (s : Rle0)
    → s.num_values_emitted < 2 ^ 32
    → (flush s).1.num_values_emitted ≡ u32 (s.num_values_emitted + length (flush s).0)
unfolding flush
flush_counts s h = elim (Bool-cases s.in_run) [
  | inl run ↦ rw run (run_counts (u32 (s.run_length + 1)) s.num_values_emitted h)
  | inr idle ↦ rw idle (omega (arith, h))
]

encode_counts :
    (p : ℕ) (s : Rle0)
    → s.num_values_emitted < 2 ^ 32
    → (encode p s).1.num_values_emitted ≡ u32 (s.num_values_emitted + length (encode p s).0)
unfolding encode
encode_counts p s h = ground (arith, flush_counts s h, length-append (flush s).0 (u16 (p + 1) ∷ []))

-- From a state whose counter is below 2 ^ 32, `NumValuesEmitted` behind a whole block is the
-- counter before plus the number of symbols handed to the model, in 32 bits.
pub num_values_emitted-encode_all :
    (ps : Bytes) (s : Rle0)
    → s.num_values_emitted < 2 ^ 32
    → (encode_all ps s).1.num_values_emitted
      ≡ u32 (s.num_values_emitted + length (encode_all ps s).0)
unfolding encode_all
num_values_emitted-encode_all [] s h = flush_counts s h
num_values_emitted-encode_all (p ∷ ps) s h =
    let t = (encode p s).1 in
    omega (
      arith,
      encode_counts p s h,
      num_values_emitted-encode_all ps t (omega (arith, encode_counts p s h)),
      length-append (encode p s).0 (encode_all ps t).0,
    )
