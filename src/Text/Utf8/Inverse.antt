-- ===== src/Text/Utf8/Inverse.antt =====
-- The decoder reads what the encoder writes.
use native.Mathlib.Nat.{mod-eq_of_lt}
use native.Mathlib.Decide.{dec_lt}
use rdx.Base.{
  ℕ, zero, suc, ◌+◌, ◌*◌, ◌/◌, ◌%◌, ◌^◌, ◌<◌, ◌≡◌, refl, ap, ◌∙◌, ◌⊎◌, Bool, true, false, ◌∷◌, ◌++◌,
  none, some, arith, ltb, ◌==◌, length, Bytes, u32,
}
use rdx.Base.Run.{ok}
use rdx.Text.Utf8.{
  lead, continuation, encode_utf8_char, first_byte, gather, accept, decode_rest, decode_first,
  decode_utf8_char,
}

-- A character that text may hold: no surrogate, and not above the last code point.
pub record IsScalar (c : ℕ) : Type 0 where
  pub small : c < 0x110000
  pub no_surrogate : (c < 0xd800) ⊎ (0xdfff < c)

when_true {ℓ} : {A : Type ℓ} (b : Bool) (x y : A) → b ≡ true → elim b [ false ↦ x | true ↦ y ] ≡ y
when_true true x y h = refl
when_true false x y h = cc

gather_step :
    (n value d : ℕ) (vs : Bytes)
    → d < 64
    → value + d * 64 ^ n < 4294967296
    → gather (suc n) value ((0x80 + d) ∷ vs) ≡ gather n (value + d * 64 ^ n) vs
unfolding gather
gather_step n value d vs h small =
    let top : ((0x80 + d) / 64 == 2) ≡ true = ground arith in
    let low : (0x80 + d) % 64 ≡ d = omega (arith, h) in
    let word : u32 (value + d * 64 ^ n) ≡ value + d * 64 ^ n = omega (arith, small) in
    when_true ((0x80 + d) / 64 == 2) (ok none)
      (gather n (u32 (value + (0x80 + d) % 64 * 64 ^ n)) vs) top
    ∙ ap (λ k. gather n (u32 (value + k * 64 ^ n)) vs) low
    ∙ ap (λ v. gather n v vs) word

module _ (c : ℕ) (rest : Bytes) (h : c < 0x200000) where
  pub gather-continuation1 : gather 1 (c / 64 * 64) (continuation 1 c ++ rest) ≡ ok (some (c, rest))
  unfolding gather continuation
  gather-continuation1 =
      gather_step 0 _ (c / 1 % 64) rest (omega arith) (omega (arith, h))
      ∙ ap (λ v. ok (some (v, rest))) (omega arith)

  gather-continuation2 : gather 2 (c / 4096 * 4096) (continuation 2 c ++ rest) ≡ ok (some (c, rest))
  unfolding continuation
  gather-continuation2 =
      gather_step 1 _ (c / 64 % 64) _ (omega arith) (omega (arith, h))
      ∙ ap (λ v. gather 1 v (continuation 1 c ++ rest)) (omega arith)
      ∙ gather-continuation1

  gather-continuation3 :
      gather 3 (c / 262144 * 262144) (continuation 3 c ++ rest) ≡ ok (some (c, rest))
  unfolding continuation
  gather-continuation3 =
      gather_step 2 _ (c / 4096 % 64) _ (omega arith) (omega (arith, h))
      ∙ ap (λ v. gather 2 v (continuation 2 c ++ rest)) (omega arith)
      ∙ gather-continuation2

length-continuation : (n c : ℕ) (rest : Bytes) → ltb (length (continuation n c ++ rest)) n ≡ false
unfolding continuation
length-continuation zero c rest = ground arith
length-continuation (suc n) c rest = ground (arith, length-continuation n c rest)

-- The decoder, where the first byte is known and the bytes behind it are those of a character.
pub decode_of :
    (bits first extra value c : ℕ) (rest : Bytes)
    → first_byte first ≡ some (extra, value)
    → gather extra (u32 (value * 64 ^ extra)) (continuation extra c ++ rest) ≡ ok (some (c, rest))
    → accept bits (c, rest) ≡ some (c, rest)
    → decode_utf8_char bits (first ∷ continuation extra c ++ rest) ≡ ok (some (c, rest))
unfolding decode_utf8_char decode_rest
decode_of bits first extra value c rest f g a =
    ap (λ o. decode_first bits o (continuation extra c ++ rest)) f
    ∙ rw (length-continuation extra c rest, g) (ap ok a)

pub accept-IsScalar :
    (bits c : ℕ) (rest : Bytes) → IsScalar c → c < 2 ^ bits → accept bits (c, rest) ≡ some (c, rest)
unfolding accept
accept-IsScalar bits c rest s fits = ground (arith, s.small, s.no_surrogate)

first_byte0 : (q : ℕ) → q < 128 → first_byte q ≡ some (0, q)
unfolding first_byte
first_byte0 q h = ground arith

pub first_byte1 : (q : ℕ) → q < 32 → first_byte (0xc0 + q) ≡ some (1, q)
unfolding first_byte
first_byte1 q h = ground arith

first_byte2 : (q : ℕ) → q < 16 → first_byte (0xe0 + q) ≡ some (2, q)
unfolding first_byte
first_byte2 q h = ground arith

first_byte3 : (q : ℕ) → q < 8 → first_byte (0xf0 + q) ≡ some (3, q)
unfolding first_byte
first_byte3 q h = ground arith

-- Decoding, by the number of bytes that the encoder takes.
decode_by_size :
    (bits c : ℕ) (rest : Bytes)
    → c < 0x200000
    → accept bits (c, rest) ≡ some (c, rest)
    → decode_utf8_char bits ((lead c).0 ∷ continuation (lead c).1 c ++ rest) ≡ ok (some (c, rest))
unfolding lead gather continuation
decode_by_size bits c rest small a = elim (dec_lt c 0x80) [
  | yes one ↦
      let e : lead c ≡ (c, 0) = ground arith in
      rw e (
        decode_of bits c 0 c c rest (first_byte0 c one)
          (ap (λ v. ok (some (v, rest))) (omega arith)) a)
  | no n1 ↦ elim (dec_lt c 0x800) [
    | yes two ↦
        let e : lead c ≡ (0xc0 + c / 64, 1) = ground arith in
        rw e (
          decode_of bits (0xc0 + c / 64) 1 (c / 64) c rest (first_byte1 _ (omega arith))
            (ap (λ v. gather 1 v (continuation 1 c ++ rest)) (omega arith)
              ∙ gather-continuation1 c rest small)
            a)
    | no n2 ↦ elim (dec_lt c 0x10000) [
      | yes three ↦
          let e : lead c ≡ (0xe0 + c / 4096, 2) = ground arith in
          rw e (
            decode_of bits (0xe0 + c / 4096) 2 (c / 4096) c rest (first_byte2 _ (omega arith))
              (ap (λ v. gather 2 v (continuation 2 c ++ rest)) (omega arith)
                ∙ gather-continuation2 c rest small)
              a)
      | no n3 ↦
          let e : lead c ≡ (0xf0 + c / 262144, 3) = ground arith in
          rw e (
            decode_of bits (0xf0 + c / 262144) 3 (c / 262144) c rest (first_byte3 _ (omega arith))
              (ap (λ v. gather 3 v (continuation 3 c ++ rest)) (omega arith)
                ∙ gather-continuation3 c rest small)
              a)
    ]
  ]
]

-- For a code point that is no surrogate, not above 0x10ffff and within the bits of a character,
-- decoding its encoding with any bytes behind it gives the code point and these bytes.
pub decode_utf8_char-encode_utf8_char :
    (bits c : ℕ) (rest : Bytes)
    → IsScalar c
    → c < 2 ^ bits
    → decode_utf8_char bits (encode_utf8_char bits c ++ rest) ≡ ok (some (c, rest))
unfolding encode_utf8_char
decode_utf8_char-encode_utf8_char bits c rest s fits =
    let kept : c % 2 ^ bits ≡ c = mod-eq_of_lt fits in
    let same : c % 2 ^ bits % 0x80000000 ≡ c =
      ap (λ v. v % 0x80000000) kept ∙ omega (arith, s.small) in
    rw same
      (decode_by_size bits c rest (omega (arith, s.small)) (accept-IsScalar bits c rest s fits))
