-- ===== src/Text/Utf8/Sound.antt =====
-- What the decoder accepts: `rdxDecodeUTF8Char` of src/rdx/rdx_utility.hpp.
use rdx.Base.{
  ℕ, ◌&&◌, zero, suc, ◌+◌, ◌/◌, ◌%◌, ◌^◌, ◌<◌, ◌≤◌, ◌≡◌, refl, ap, ◌∙◌, inl, inr, Bool, true, false,
  [], ◌∷◌, ◌++◌, Option, none, some, arith, ltb, leb, ◌==◌, length, Bytes, Bool-cases, drop,
}
use rdx.Base.Run.{Run, ok, out_of_bounds, out_of_fuel, ◌>>=◌}
use rdx.Text.Utf8.{
  continuation, first_byte, gather, accept, checked, decode_rest, decode_first, decode_utf8_char,
}
use rdx.Text.Utf8.Inverse.{IsScalar, decode_of, first_byte1, gather-continuation1, accept-IsScalar}

-- No character, or one that text may hold, with the bytes behind the n that were taken.
abbrev pub Decoded : ℕ → Bytes → Run (Option (ℕ × Bytes)) → Type 0
Decoded bits bytes (ok none) = Unit {0}
Decoded bits bytes (ok (some (c, rest))) =
    IsScalar c
    × (c < 2 ^ bits)
    × ((n : ℕ) × (1 ≤ n) × (n ≤ 4) × (length bytes ≡ n + length rest) × (rest ≡ drop n bytes))
Decoded bits bytes out_of_bounds = ⊥
Decoded bits bytes out_of_fuel = ⊥

abbrev Gathered : ℕ → Bytes → Run (Option (ℕ × Bytes)) → Type 0
Gathered n bytes (ok none) = Unit {0}
Gathered n bytes (ok (some (v, rest))) = (length bytes ≡ n + length rest) × (rest ≡ drop n bytes)
Gathered n bytes out_of_bounds = ⊥
Gathered n bytes out_of_fuel = ⊥

gather-Gathered :
    (n value : ℕ) (bytes : Bytes) → n ≤ length bytes → Gathered n bytes (gather n value bytes)
unfolding gather
gather-Gathered zero value bytes h = (omega arith, refl)
gather-Gathered (suc n) value [] h = absurd (omega arith)
gather-Gathered (suc n) value (v ∷ vs) h =
    by_test n v vs (v / 64 == 2) _ (gather-Gathered n _ vs (omega arith))
  where
    longer :
        (n v : ℕ) (vs : Bytes) (r : Run (Option (ℕ × Bytes)))
        → Gathered n vs r
        → Gathered (suc n) (v ∷ vs) r
    longer n v vs (ok none) g = tt
    longer n v vs (ok (some (c, rest))) (l, e) = (omega (arith, l), e)
    longer n v vs out_of_bounds g = elim g [ ]
    longer n v vs out_of_fuel g = elim g [ ]

    by_test :
        (n v : ℕ) (vs : Bytes) (b : Bool) (r : Run (Option (ℕ × Bytes)))
        → Gathered n vs r
        → Gathered (suc n) (v ∷ vs) (elim b [ false ↦ ok none | true ↦ r ])
    by_test n v vs false r g = tt
    by_test n v vs true r g = longer n v vs r g

accept_sound :
    (bits c : ℕ) (rest bytes : Bytes) (n : ℕ)
    → n ≤ 3
    → (b : ℕ) → Gathered n bytes (ok (some (c, rest)))
    → Decoded bits (b ∷ bytes) (ok (accept bits (c, rest)))
unfolding accept
accept_sound bits c rest bytes n small b (l, e) = elim (Bool-cases (ltb 0x10ffff c)) [
  | inl h ↦ rw h tt
  | inr h ↦ elim (Bool-cases (leb 0xd800 c && leb c 0xdfff)) [
    | inl k ↦ rw (h, k) tt
    | inr k ↦ elim (Bool-cases (leb (2 ^ bits) c)) [
      | inl z ↦ rw (h, k, z) tt
      | inr z ↦
          rw (h, k, z)
            (
              record { small = ground arith; no_surrogate = ground arith },
              ground arith,
              (suc n, omega arith, omega (arith, small), omega (arith, l), e),
            )
    ]
  ]
]

-- whatever the bytes after the first
rest_sound :
    (bits extra value b : ℕ) (bytes : Bytes)
    → extra ≤ 3
    → Decoded bits (b ∷ bytes) (decode_rest bits extra value bytes)
unfolding decode_rest
rest_sound bits extra value b bytes small = elim (Bool-cases (ltb (length bytes) extra)) [
  | inl h ↦ rw h tt
  | inr h ↦ rw h (go _ (gather-Gathered extra _ bytes (ground arith)))
]
  where
    go :
        (r : Run (Option (ℕ × Bytes)))
        → Gathered extra bytes r
        → Decoded bits (b ∷ bytes) (r >>= λ found. ok (checked bits found))
    go (ok none) g = tt
    go (ok (some (c, rest))) g = accept_sound bits c rest bytes extra small b g
    go out_of_bounds g = elim g [ ]
    go out_of_fuel g = elim g [ ]

first_sound :
    (bits b : ℕ) (bytes : Bytes) (o : Option (ℕ × ℕ))
    → first_byte b ≡ o
    → Decoded bits (b ∷ bytes) (decode_first bits o bytes)
unfolding first_byte
first_sound bits b bytes none h = tt
first_sound bits b bytes (some (extra, value)) h =
    rest_sound bits extra value b bytes (ground arith)

-- Decoding at least one byte stays within the bytes available. It finds no character, or a code
-- point that is no surrogate, not above 0x10ffff and within the bits of a character, and it takes
-- from one to four bytes off the front.
pub decode_utf8_char_sound :
    (bits b : ℕ) (bytes : Bytes) → Decoded bits (b ∷ bytes) (decode_utf8_char bits (b ∷ bytes))
unfolding decode_utf8_char
decode_utf8_char_sound bits b bytes = first_sound bits b bytes (first_byte b) refl

-- The decoder reads any character below 128 that fits the bits of a character from an overlong form
-- of two bytes.
pub overlong_accepted :
    (bits c : ℕ) (rest : Bytes)
    → c < 128
    → c < 2 ^ bits
    → decode_utf8_char bits ((0xc0 + c / 64) ∷ (0x80 + c % 64) ∷ rest) ≡ ok (some (c, rest))
unfolding continuation
overlong_accepted bits c rest h fits =
    ap (λ d. decode_utf8_char bits ((0xc0 + c / 64) ∷ (0x80 + d) ∷ rest)) (omega arith)
    ∙ decode_of bits (0xc0 + c / 64) 1 (c / 64) c rest (first_byte1 _ (omega arith))
        (ap (λ v. gather 1 v (continuation 1 c ++ rest)) (omega arith)
          ∙ gather-continuation1 c rest (omega arith))
        (accept-IsScalar bits c rest
          (record { small = omega arith; no_surrogate = inl (omega arith) }) fits)
