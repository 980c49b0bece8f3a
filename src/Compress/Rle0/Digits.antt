-- ===== src/Compress/Rle0/Digits.antt =====
-- A flushed run is the binary numeral of its length plus one, less the leading one.
use native.Mathlib.Nat.{div-div-eq-div-mul, pow-suc, div-one}
use native.Mathlib.Decide.{dec_le}
use native.Mathlib.Numerals.{add-one}
use rdx.Base.{
  ℕ, zero, suc, ◌+◌, ◌*◌, ◌/◌, ◌^◌, ◌<◌, ◌≤◌, ◌≡◌, refl, sym, ap, ◌∙◌, List, [], ◌∷◌, arith, ◌==◌,
  if◌then◌else◌, length,
}
use rdx.Compress.Rle0.{bit, top_bit, emit_bits, run_symbols}

-- The number that a list of digits stands for, behind the digits read so far.
abbrev pub numeral : ℕ → List ℕ → ℕ
numeral acc [] = acc
numeral acc (d ∷ ds) = numeral (acc * 2 + d) ds

half : (x b : ℕ) → x / 2 ^ b / 2 ≡ x / 2 ^ suc b
half x b = div-div-eq-div-mul x (2 ^ b) 2 ∙ ap (◌/◌ x) (sym (pow-suc 2 b))

half_next : (x b : ℕ) → x / 2 ^ b / 2 ≡ x / 2 ^ (b + 1)
half_next x b = half x b ∙ ap (λ k. x / 2 ^ k) (sym (add-one b))

numeral-emit_bits : (b x : ℕ) → numeral (x / 2 ^ b) (emit_bits b x) ≡ x
unfolding emit_bits
numeral-emit_bits zero x = div-one x
numeral-emit_bits (suc b) x =
    let e : x / 2 ^ suc b * 2 + (if bit x b == 1 then 1 else 0) ≡ x / 2 ^ b =
      ground (arith, half x b) in
    ap (λ t. numeral t (emit_bits b x)) e ∙ numeral-emit_bits b x

top_bit-eq_acc : (n i x acc : ℕ) → x / 2 ^ i ≡ 0 → top_bit n i x acc ≡ acc
unfolding top_bit
top_bit-eq_acc zero i x acc z = refl
top_bit-eq_acc (suc n) i x acc z =
    top_bit-eq_acc n (i + 1) x (if bit x i == 1 then i else acc) (omega (arith, half_next x i))
    ∙ ground arith

top_bit_leads :
    (n i j x acc : ℕ) → i + n ≡ j → x / 2 ^ j ≡ 0 → 1 ≤ x / 2 ^ i → x / 2 ^ top_bit n i x acc ≡ 1
unfolding top_bit
top_bit_leads zero i j x acc e z h =
    let same : i ≡ j = omega arith in absurd (omega (arith, ap (λ k. x / 2 ^ k) same))
top_bit_leads (suc n) i j x acc e z h =
    let acc' = if bit x i == 1 then i else acc in
    elim (dec_le (x / 2 ^ i) 1) [
      | yes p ↦
          let found : top_bit n (i + 1) x acc' ≡ i =
            top_bit-eq_acc n (i + 1) x acc' (omega (arith, half_next x i)) ∙ ground arith in
          ap (λ k. x / 2 ^ k) found ∙ omega arith
      | no p ↦ top_bit_leads n (i + 1) j x acc' (omega arith) z (omega (arith, half_next x i))
    ]

-- For an incremented run length from 1 to 2 ^ 30 - 1, the symbols of the run, read as binary digits
-- behind a leading one, make the number again.
pub numeral_flushed : (x : ℕ) → 1 ≤ x → x < 2 ^ 30 → numeral 1 (run_symbols x) ≡ x
unfolding run_symbols
numeral_flushed x lo hi =
    ap (λ t. numeral t (emit_bits (top_bit 29 1 x 0) x)) (sym leads)
    ∙ numeral-emit_bits (top_bit 29 1 x 0) x
  where
    leads : x / 2 ^ top_bit 29 1 x 0 ≡ 1
    leads = elim (dec_le 2 x) [
      | yes p ↦ top_bit_leads 29 1 30 x 0 refl (omega arith) (omega arith)
      | no p ↦
          let none_set = top_bit-eq_acc 29 1 x 0 (omega arith) in
          ap (λ k. x / 2 ^ k) none_set ∙ omega arith
    ]

pub length-emit_bits : (bits x : ℕ) → length (emit_bits bits x) ≡ bits
unfolding emit_bits
length-emit_bits zero x = refl
length-emit_bits (suc bits) x = ap suc (length-emit_bits bits x)

-- Only binary digits are emitted.
abbrev pub AllDigits : List ℕ → Type 0
AllDigits [] = Unit {0}
AllDigits (d ∷ ds) = (d < 2) × AllDigits ds

emit_bits-AllDigits : (b x : ℕ) → AllDigits (emit_bits b x)
unfolding emit_bits
emit_bits-AllDigits zero x = tt
emit_bits-AllDigits (suc b) x = (ground arith, emit_bits-AllDigits b x)

pub run_symbols-AllDigits : (x : ℕ) → AllDigits (run_symbols x)
unfolding run_symbols
run_symbols-AllDigits x = emit_bits-AllDigits (top_bit 29 1 x 0) x
