-- ===== src/Tests/Text.antt =====
-- src/rdx/rdx_utility.hpp and rdx_objectmanager.cpp: the theorems on characters and sizes at concrete inputs.
use rdx.Base.{
  List, ℕ, ◌+◌, ◌-◌, ◌*◌, ◌/◌, ◌%◌, ◌<◌, ◌≤◌, ◌≡◌, ◌⊎◌, inl, ◌↔◌, refl, true, [], ◌∷◌, ◌++◌, none,
  some, arith,
}
use rdx.Base.Run.{ok}
use rdx.Text.Count.{count_characters, count_loop}
use rdx.Text.Count.Total.{
  AllCountable, encode_utf8, utf8_string, count_characters-encode_utf8, Counted, count_loop-Counted,
}
use rdx.Text.Utf8.{
  encode_utf8_char, lead, continuation, decode_utf8_char, first_byte, gather, accept, decode_rest,
}
use rdx.Text.Utf8.Inverse.{IsScalar, decode_utf8_char-encode_utf8_char}
use rdx.Text.Utf8.Sound.{Decoded, decode_utf8_char_sound, overlong_accepted}
use rdx.Text.Sizes.{
  largeuint_max, check_mul_overflow_u, check_mul_overflow_u_lem, padded_size, padded_size_unchecked,
  IsPadded, padded_size_lem,
}

euro-IsScalar : IsScalar 0x20ac
euro-IsScalar = record { small = omega arith; no_surrogate = inl (omega arith) }

decode_utf8_char-encode_utf8_char_example :
    decode_utf8_char 16 (encode_utf8_char 16 0x20ac ++ 33 ∷ []) ≡ ok (some (0x20ac, 33 ∷ []))
decode_utf8_char-encode_utf8_char_example =
    decode_utf8_char-encode_utf8_char 16 0x20ac (33 ∷ []) euro-IsScalar (omega arith)

decode_utf8_char_sound_example :
    Decoded 16 (0xe2 ∷ 0x82 ∷ 0xac ∷ []) (decode_utf8_char 16 (0xe2 ∷ 0x82 ∷ 0xac ∷ []))
decode_utf8_char_sound_example = decode_utf8_char_sound 16 0xe2 (0x82 ∷ 0xac ∷ [])

overlong_accepted_example :
    decode_utf8_char 8 ((0xc0 + 47 / 64) ∷ (0x80 + 47 % 64) ∷ []) ≡ ok (some (47, []))
overlong_accepted_example = overlong_accepted 8 47 [] (omega arith) (omega arith)

check_mul_overflow_u_lem_example :
    (check_mul_overflow_u 65536 4294967296 ≡ true) ↔ (65536 * 4294967296 ≤ largeuint_max)
check_mul_overflow_u_lem_example = check_mul_overflow_u_lem 65536 4294967296

padded_size_lem_example :
    (largeuint_max < 13 + (8 - 1)) × (padded_size 13 8 ≡ none)
    ⊎ (w : ℕ) × (padded_size 13 8 ≡ some w) × (padded_size_unchecked 13 8 ≡ w) × IsPadded 13 8 w
padded_size_lem_example = padded_size_lem 13 8 (omega arith) (omega arith)

-- a surrogate, a byte that does not go on, and a character that is cut off
surrogate : decode_utf8_char 16 (0xed ∷ 0xa0 ∷ 0x80 ∷ []) ≡ ok none
unfolding decode_utf8_char decode_rest first_byte gather accept
surrogate = refl

broken : decode_utf8_char 16 (0xe2 ∷ 0x82 ∷ 0x20 ∷ []) ≡ ok none
unfolding decode_utf8_char decode_rest first_byte gather accept
broken = refl

cut_off : decode_utf8_char 16 (0xe2 ∷ 0x82 ∷ []) ≡ ok none
unfolding decode_utf8_char decode_rest first_byte gather accept
cut_off = refl

-- an accented letter, the euro sign and an exclamation mark
abbrev written : List ℕ
written = 0xe9 ∷ 0x20ac ∷ 33 ∷ []

below-IsScalar : (c : ℕ) → c < 0xd800 → IsScalar c
below-IsScalar c lt = record { small = omega (arith, lt); no_surrogate = inl lt }

written-AllCountable : AllCountable 16 written
written-AllCountable = (
  below-IsScalar 0xe9 (omega arith),
  omega arith,
  (euro-IsScalar, omega arith, (below-IsScalar 33 (omega arith), omega arith, tt)),
)

count_characters-encode_utf8_example :
    count_characters 16 (utf8_string (encode_utf8 16 written) (0 ∷ [])) ≡ ok (true, some 3)
unfolding encode_utf8_char lead continuation
count_characters-encode_utf8_example =
    count_characters-encode_utf8 16 written (0 ∷ []) written-AllCountable (omega arith)

count_loop-Counted_example : Counted (0 + 2) (count_loop 2 16 0 (0xe2 ∷ 0x82 ∷ []))
count_loop-Counted_example = count_loop-Counted 2 16 0 (0xe2 ∷ 0x82 ∷ []) (omega arith)

-- U+FFFF at the end of a string of 16-bit characters is not counted, and the string is still valid
noncharacter : count_loop 4 16 0 (65 ∷ 0xef ∷ 0xbf ∷ 0xbf ∷ []) ≡ ok (true, 1)
unfolding count_loop decode_utf8_char decode_rest first_byte gather accept
noncharacter = refl
