-- ===== src/Text/Count/Total.antt =====
-- Counting the characters of a UTF-8 string: it ends, and it counts what was encoded.
use rdx.Base.{
  ℕ, zero, suc, ◌+◌, ◌-◌, ◌<◌, ◌≤◌, ◌≡◌, refl, ap, ◌∙◌, Bool, true, false, List, [], ◌∷◌, ◌++◌,
  Option, none, some, arith, ◌==◌, length, Bytes, length-append, take, ltb, leb,
}
use rdx.Base.Run.{Run, ok, out_of_bounds, out_of_fuel, ◌>>=◌}
use rdx.Text.Utf8.{encode_utf8_char}
use rdx.Text.Utf8.Inverse.{IsScalar, decode_utf8_char-encode_utf8_char}
use rdx.Text.Utf8.Sound.{Decoded, decode_utf8_char_sound}
use rdx.Text.Sizes.{largeuint_max, check_add_overflow_u}
use rdx.Text.Count.{CandidateString, utf8, count_characters, invalid, count_loop, is_nil}

-- characters that are not taken for `rdxCHAR_Invalid`
abbrev pub AllCountable : ℕ → List ℕ → Type 0
AllCountable bits [] = Unit {0}
AllCountable bits (c ∷ cs) = IsScalar c × (c < invalid bits) × AllCountable bits cs

abbrev pub encode_utf8 : ℕ → List ℕ → Bytes
encode_utf8 bits [] = []
encode_utf8 bits (c ∷ cs) = encode_utf8_char bits c ++ encode_utf8 bits cs

-- what the loop does with a decoded character
abbrev after : ℕ → ℕ → ℕ → Option (ℕ × Bytes) → Run (Bool × ℕ)
after fuel bits count r = elim r [
  | none ↦ ok (false, count)
  | some (c, rest) ↦ elim (c == invalid bits) [
    | true ↦ ok (is_nil rest, count)
    | false ↦ count_loop fuel bits (count + 1) rest
  ]
]

after_other :
    (fuel bits count c : ℕ) (rest : Bytes) (b : Bool)
    → b ≡ false
    → elim b [ true ↦ ok (is_nil rest, count) | false ↦ count_loop fuel bits (count + 1) rest ]
      ≡ count_loop fuel bits (count + 1) rest
after_other fuel bits count c rest true h = cc
after_other fuel bits count c rest false h = refl

count_step :
    (fuel bits count c : ℕ) (rest : Bytes)
    → IsScalar c
    → c < invalid bits
    → count_loop (suc fuel) bits count (encode_utf8_char bits c ++ rest)
      ≡ count_loop fuel bits (count + 1) rest
unfolding count_loop encode_utf8_char
count_step fuel bits count c rest s lt =
    ap (λ m. m >>= after fuel bits count)
      (decode_utf8_char-encode_utf8_char bits c rest s (omega (arith, lt)))
    ∙ after_other fuel bits count c rest (c == invalid bits) (ground arith)

pub count_loop-encode_utf8 :
    (fuel bits count : ℕ) (cs : List ℕ)
    → AllCountable bits cs
    → length cs ≤ fuel
    → count_loop fuel bits count (encode_utf8 bits cs) ≡ ok (true, count + length cs)
unfolding count_loop
count_loop-encode_utf8 fuel bits count [] a h = ap (λ n. ok (true, n)) (omega arith)
count_loop-encode_utf8 zero bits count (c ∷ cs) a h = absurd (omega arith)
count_loop-encode_utf8 (suc fuel) bits count (c ∷ cs) (s, lt, a) h =
    count_step fuel bits count c (encode_utf8 bits cs) s lt
    ∙ count_loop-encode_utf8 fuel bits (count + 1) cs a (omega arith)
    ∙ ap (λ n. ok (true, n)) (omega arith)

-- An end with enough fuel and without a bad read, and at most so many characters.
abbrev pub Counted : ℕ → Run (Bool × ℕ) → Type 0
Counted most (ok (valid, n)) = n ≤ most
Counted most out_of_bounds = ⊥
Counted most out_of_fuel = ⊥

-- one round, whatever was decoded
count_round :
    (fuel bits count b : ℕ) (bs : Bytes) (r : Run (Option (ℕ × Bytes)))
    → Decoded bits (b ∷ bs) r
    → length (b ∷ bs) ≤ suc fuel
    → ((rest : Bytes)
        → length rest ≤ fuel
        → Counted (count + 1 + length rest) (count_loop fuel bits (count + 1) rest))
    → Counted (count + length (b ∷ bs)) (r >>= after fuel bits count)
count_round fuel bits count b bs (ok none) d h next = omega arith
count_round fuel bits count b bs (ok (some (c, rest))) (_, _, (n, pos, _, size, _)) h next =
    ended (c == invalid bits) (count_loop fuel bits (count + 1) rest)
      (next rest (omega (arith, pos, size, h)))
  where
    ended :
        (x : Bool) (m : Run (Bool × ℕ))
        → Counted (count + 1 + length rest) m
        → Counted (count + length (b ∷ bs)) (elim x [ true ↦ ok (is_nil rest, count) | false ↦ m ])
    ended true m k = omega arith
    ended false (ok (valid, q)) k = omega (arith, k, pos, size)
    ended false out_of_bounds k = elim k [ ]
    ended false out_of_fuel k = elim k [ ]
count_round fuel bits count b bs out_of_bounds d h next = elim d [ ]
count_round fuel bits count b bs out_of_fuel d h next = elim d [ ]

-- With as much fuel as there are bytes, the loop of `CountCharacters` over any bytes ends without a
-- read outside of them, and it counts at most one character for each byte.
pub count_loop-Counted :
    (fuel bits count : ℕ) (bytes : Bytes)
    → length bytes ≤ fuel
    → Counted (count + length bytes) (count_loop fuel bits count bytes)
unfolding count_loop
count_loop-Counted fuel bits count [] h = omega arith
count_loop-Counted zero bits count (b ∷ bs) h = absurd (omega arith)
count_loop-Counted (suc fuel) bits count (b ∷ bs) h =
    count_round fuel bits count b bs _ (decode_utf8_char_sound bits b bs) h
      λ rest l. count_loop-Counted fuel bits (count + 1) rest l

pub length-encode_utf8 : (bits : ℕ) (cs : List ℕ) → length cs ≤ length (encode_utf8 bits cs)
unfolding encode_utf8_char
length-encode_utf8 bits [] = omega arith
length-encode_utf8 bits (c ∷ cs) = omega (
  arith,
  length-encode_utf8 bits cs,
  length-append (encode_utf8_char bits c) (encode_utf8 bits cs),
)

pub take-append : (xs ys : Bytes) → take (length xs) (xs ++ ys) ≡ xs
take-append [] ys = refl
take-append (x ∷ xs) ys = ap (λ zs. x ∷ zs) (take-append xs ys)

-- a string of UTF-8 behind which other bytes may stand
abbrev pub utf8_string : Bytes → Bytes → CandidateString
utf8_string text behind = record {
  format = utf8;
  num_raw_bytes1 = length text;
  num_raw_bytes2 = 0;
  initial_data = text ++ behind;
  secondary_data = [];
  num_characters = 0;
}

count_text :
    (bits : ℕ) (text behind : Bytes)
    → length text ≤ largeuint_max
    → count_characters bits (utf8_string text behind)
      ≡ (count_loop (length text) bits 0 text >>= λ r. ok (r.0, some r.1))
unfolding count_characters check_add_overflow_u
count_text bits text behind h =
    let all : length text + 0 ≡ length text = omega arith in
    let fits : leb (length text) (largeuint_max - 0) ≡ true = ground arith in
    let within : ltb (length (text ++ behind)) (length text) ≡ false =
      ground (arith, length-append text behind) in
    rw (fits, all, within, take-append text behind) refl

-- For code points that are no surrogates and below the value of rdxCHAR_Invalid, whose encoding is
-- not longer than the largest size, `CountCharacters` finds their UTF-8 encoding, with any bytes
-- behind it, valid and counts them.
pub count_characters-encode_utf8 :
    (bits : ℕ) (cs : List ℕ) (behind : Bytes)
    → AllCountable bits cs
    → length (encode_utf8 bits cs) ≤ largeuint_max
    → count_characters bits (utf8_string (encode_utf8 bits cs) behind) ≡ ok (true, some (length cs))
count_characters-encode_utf8 bits cs behind a h =
    count_text bits (encode_utf8 bits cs) behind h
    ∙ ap (λ m. m >>= λ r. ok (r.0, some r.1))
        (count_loop-encode_utf8 (length (encode_utf8 bits cs)) bits 0 cs a
          (length-encode_utf8 bits cs))
    ∙ ap (λ n. ok (true, some n)) (omega arith)
