-- ===== src/Text/Candidate/Formats/Decoded.antt =====
-- A candidate string in a format that the loops decode is decoded to its characters:
-- src/rdx/rdx_objectmanager.cpp.
use mathlib.Core.List.{append-nil}
use rdx.Base.{
  ℕ, zero, suc, ◌+◌, ◌*◌, ◌<◌, ◌≤◌, ◌≡◌, refl, sym, true, false, some, List, [], ◌∷◌, ◌++◌, arith,
  ◌==◌, ltb, length, Bytes, length-append, u64,
}
use rdx.Base.Run.{ok}
use rdx.Text.Sizes.{largeuint_max}
use rdx.Text.Utf8.{encode_utf8_char, decode_utf8_char}
use rdx.Text.Utf8.Inverse.{decode_utf8_char-encode_utf8_char}
use rdx.Text.Count.{CandidateString, utf8, ascii, concatenated, invalid}
use rdx.Text.Count.Total.{AllCountable, encode_utf8, take-append, length-encode_utf8}
use rdx.Text.Candidate.{Cursor, less, char_size, first_cursor, decode_character, decode_utf8}
use rdx.Text.Candidate.Spelled.{Spells}
use rdx.Text.Candidate.Formats.{
  AllBelow, Spelling, in_ascii, in_char, in_utf8, in_concatenated, chars, IsFit, candidate,
  IsDecoded, remaining,
}

abbrev cursor : List ℕ → ℕ → Cursor
cursor ds n = record { data_left = ds; available = n }

less_lem : (n k : ℕ) → k ≤ n → n ≤ largeuint_max → less n k + k ≡ n
less_lem n k h m = omega (arith, h, m)

ascii-Spells :
    (bits : ℕ) (s : CandidateString) (cs behind : List ℕ)
    → s.format ≡ ascii
    → AllBelow 128 cs
    → 127 < invalid bits
    → length cs ≤ largeuint_max
    → Spells bits s (cursor (cs ++ behind) (length cs)) cs
unfolding decode_character
ascii-Spells bits s [] behind f a w m = refl
ascii-Spells bits s (c ∷ cs) behind f (lt, a) w m =
    let one_less : less (length (c ∷ cs)) 1 ≡ length cs = omega (arith, m) in
    let plain : ltb c 128 ≡ true = ground arith in
    (
      ground arith,
      ground (arith, lt, w),
      cursor (cs ++ behind) (length cs),
      rw (f, plain, one_less) refl,
      ascii-Spells bits s cs behind f a w (omega (arith, m)),
    )

decode_utf8_lem :
    (bits c : ℕ) (text behind bytes : Bytes)
    → bytes ≡ encode_utf8_char bits c ++ text ++ behind
    → decode_utf8_char bits (encode_utf8_char bits c ++ text) ≡ ok (some (c, text))
    → decode_utf8 bits (cursor bytes (length (encode_utf8_char bits c ++ text)))
      ≡ ok (c, cursor text (length text))
decode_utf8_lem bits c text behind bytes e d =
    let whole : Bytes = encode_utf8_char bits c ++ text in
    let within : ltb (length (whole ++ behind)) (length whole) ≡ false =
      ground (arith, length-append whole behind) in
    rw (e, within, take-append whole behind, d) refl

length-encode_utf8_char : (bits c : ℕ) (text : Bytes) → 1 ≤ length (encode_utf8_char bits c ++ text)
unfolding encode_utf8_char
length-encode_utf8_char bits c text = omega arith

utf8-Spells :
    (bits : ℕ) (s : CandidateString) (cs : List ℕ) (behind bytes : Bytes)
    → s.format ≡ utf8
    → bytes ≡ encode_utf8 bits cs ++ behind
    → AllCountable bits cs
    → Spells bits s (cursor bytes (length (encode_utf8 bits cs))) cs
unfolding decode_character
utf8-Spells bits s [] behind bytes f e a = refl
utf8-Spells bits s (c ∷ cs) behind bytes f e (scalar, lt, a) =
    let text : Bytes = encode_utf8 bits cs in
    let first = length-encode_utf8_char bits c text in
    let decoded = decode_utf8_char-encode_utf8_char bits c text scalar (omega (arith, lt)) in
    (
      ground arith,
      ground arith,
      cursor text (length text),
      rw f (decode_utf8_lem bits c text behind bytes e decoded),
      utf8-Spells bits s cs [] text f (sym (append-nil text)) a,
    )

-- the second string of a concatenation
second-Spells :
    (bits : ℕ) (s : CandidateString) (ds behind : List ℕ)
    → s.format ≡ concatenated
    → AllBelow (invalid bits) ds
    → 1 ≤ char_size bits
    → length ds * char_size bits ≤ s.num_raw_bytes2
    → s.num_raw_bytes2 ≤ largeuint_max
    → Spells bits s (cursor (ds ++ behind) (length ds * char_size bits)) ds
unfolding decode_character
second-Spells bits s [] behind f a w h m = ground arith
second-Spells bits s (d ∷ ds) behind f (lt, a) w h m =
    let step : length (d ∷ ds) * char_size bits ≡ length ds * char_size bits + char_size bits =
      omega arith in
    let left : less (length (d ∷ ds) * char_size bits) (char_size bits)
        ≡ length ds * char_size bits =
      omega (arith, step, h, m, w) in
    let not_first : (length ds * char_size bits == s.num_raw_bytes2) ≡ false =
      ground (arith, step, h, w) in
    (
      ground (arith, step, w),
      ground arith,
      cursor (ds ++ behind) (length ds * char_size bits),
      rw (f, left, not_first) refl,
      second-Spells bits s ds behind f a w (omega (arith, step, h)) m,
    )

first-Spells :
    (bits : ℕ) (s : CandidateString) (c : ℕ) (cs behind1 ds behind2 : List ℕ)
    → s.format ≡ concatenated
    → s.secondary_data ≡ ds ++ behind2
    → AllBelow (invalid bits) (c ∷ cs ++ ds)
    → 1 ≤ char_size bits
    → length ds * char_size bits ≡ s.num_raw_bytes2
    → length (c ∷ cs) * char_size bits + s.num_raw_bytes2 ≤ largeuint_max
    → Spells bits s
        (cursor ((c ∷ cs) ++ behind1) (length (c ∷ cs) * char_size bits + s.num_raw_bytes2))
        (c ∷ cs ++ ds)
unfolding decode_character
first-Spells bits s c [] behind1 ds behind2 f g (lt, a) w e m =
    let one : 1 * char_size bits ≡ char_size bits = omega arith in
    let left : less (1 * char_size bits + s.num_raw_bytes2) (char_size bits)
        ≡ length ds * char_size bits =
      omega (arith, one, e, m, w) in
    let last : (length ds * char_size bits == s.num_raw_bytes2) ≡ true = ground (arith, e) in
    (
      ground (arith, one, w),
      ground arith,
      cursor (ds ++ behind2) (length ds * char_size bits),
      rw (f, left, last, g) refl,
      second-Spells bits s ds behind2 f a w (omega (arith, e)) (omega (arith, m)),
    )
first-Spells bits s c (d ∷ cs) behind1 ds behind2 f g (lt, a) w e m =
    let rest : ℕ = length (d ∷ cs) * char_size bits + s.num_raw_bytes2 in
    let step : length (c ∷ d ∷ cs) * char_size bits
        ≡ length (d ∷ cs) * char_size bits + char_size bits =
      omega arith in
    let positive : length (d ∷ cs) * char_size bits ≡ length cs * char_size bits + char_size bits =
      omega arith in
    let left : less (length (c ∷ d ∷ cs) * char_size bits + s.num_raw_bytes2) (char_size bits)
        ≡ rest =
      omega (arith, step, m, w) in
    let not_last : (rest == s.num_raw_bytes2) ≡ false = ground (arith, positive, w) in
    (
      ground (arith, step, w),
      ground arith,
      cursor ((d ∷ cs) ++ behind1) rest,
      rw (f, left, not_last) refl,
      first-Spells bits s d cs behind1 ds behind2 f g a w e (omega (arith, step, m)),
    )

times_below : (n k : ℕ) → 1 ≤ k → n ≤ n * k
times_below zero k h = omega arith
times_below (suc n) k h =
    let step : suc n * k ≡ n * k + k = omega arith in omega (arith, h, step, times_below n k h)

pub remaining-chars :
    (bits : ℕ) (t : Spelling)
    → IsFit bits t
    → IsDecoded t
    → length (chars t) ≤ remaining (candidate bits t)
remaining-chars bits (in_ascii cs behind) (a, w, m) d = omega (arith, m)
remaining-chars bits (in_char cs behind) m d = elim d [ ]
remaining-chars bits (in_utf8 cs behind) (a, m) d = omega (arith, m, length-encode_utf8 bits cs)
remaining-chars bits (in_concatenated c cs behind1 ds behind2) (a, w, m) d = omega (
  arith,
  m,
  length-append (c ∷ cs) ds,
  times_below (length (c ∷ cs)) (char_size bits) w,
  times_below (length ds) (char_size bits) w,
)

pub candidate-Spells :
    (bits : ℕ) (t : Spelling)
    → IsFit bits t
    → IsDecoded t
    → Spells bits (candidate bits t) (first_cursor (candidate bits t)) (chars t)
candidate-Spells bits (in_ascii cs behind) (a, w, m) d =
    let all : u64 (length cs + 0) ≡ length cs = omega (arith, m) in
    rw all (ascii-Spells bits _ cs behind refl a w m)
candidate-Spells bits (in_char cs behind) m d = elim d [ ]
candidate-Spells bits (in_utf8 cs behind) (a, m) d =
    let text : Bytes = encode_utf8 bits cs in
    let all : u64 (length text + 0) ≡ length text = omega (arith, m) in
    rw all (utf8-Spells bits _ cs behind (text ++ behind) refl refl a)
candidate-Spells bits (in_concatenated c cs behind1 ds behind2) (a, w, m) d =
    let all : u64 (length (c ∷ cs) * char_size bits + length ds * char_size bits)
        ≡ length (c ∷ cs) * char_size bits + length ds * char_size bits =
      omega (arith, m) in
    rw all (first-Spells bits _ c cs behind1 ds behind2 refl refl a w refl m)
