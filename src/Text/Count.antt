-- ===== src/Text/Count.antt =====
-- `DecodeCharacter` for UTF-8 and `CountCharacters` of `rdxSCandidateString`, in
-- src/rdx/rdx_objectmanager.cpp. The loop takes fuel; each character takes a byte, so the number of
-- bytes is enough.
pub mod Total
use rdx.Base.{
  ℕ, zero, suc, ◌+◌, ◌-◌, ◌/◌, ◌^◌, Bool, true, false, not, List, [], ◌∷◌, Option, none, some, ltb,
  ◌==◌, if◌then◌else◌, length, take, Bytes,
}
use rdx.Base.Run.{Run, ok, out_of_bounds, out_of_fuel, ◌>>=◌}
use rdx.Text.Utf8.{decode_utf8_char}
use rdx.Text.Sizes.{check_add_overflow_u}

pub data StringFormat : Type 0 where
  utf8 ascii char concatenated : StringFormat

-- `rdxSCandidateString`, with what stands at its two data pointers: bytes, or characters where the
-- format is one of characters
pub record CandidateString : Type 0 where
  pub format : StringFormat
  pub num_raw_bytes1 : ℕ
  pub num_raw_bytes2 : ℕ
  pub initial_data : Bytes
  pub secondary_data : Bytes
  pub num_characters : ℕ

abbrev pub is_nil : Bytes → Bool
is_nil [] = true
is_nil (b ∷ bs) = false

-- `rdxCHAR_Invalid` for characters of some bits, which the decoder also finds as a character
abbrev pub invalid : ℕ → ℕ
invalid bits = 2 ^ bits - 1

-- The loop over the characters, with what it has counted; the result is whether it used up the bytes,
-- and the count.
unfoldable pub count_loop : ℕ → ℕ → ℕ → Bytes → Run (Bool × ℕ)
count_loop fuel bits count [] = ok (true, count)
count_loop zero bits count (b ∷ bs) = out_of_fuel
count_loop (suc fuel) bits count (b ∷ bs) = do
  r ← decode_utf8_char bits (b ∷ bs)
  elim r [
    | none ↦ ok (false, count)
    | some (c, rest) ↦ elim (c == invalid bits) [
      | true ↦ ok (is_nil rest, count)
      | false ↦ count_loop fuel bits (count + 1) rest
    ]
  ]

-- Whether the string is valid, and `numCharacters`, which is not set where the sizes overflow.
unfoldable pub count_characters : ℕ → CandidateString → Run (Bool × Option ℕ)
count_characters bits s =
    if not (check_add_overflow_u s.num_raw_bytes1 s.num_raw_bytes2)
    then ok (false, none)
    else count_in s.format
  where
    available : ℕ
    available = s.num_raw_bytes1 + s.num_raw_bytes2

    count_in : StringFormat → Run (Bool × Option ℕ)
    count_in char = ok (true, some (available / (bits / 8)))
    count_in concatenated = ok (true, some (available / (bits / 8)))
    count_in ascii = ok (true, some available)
    count_in utf8 =
        if ltb (length s.initial_data) available
        then out_of_bounds
        else (count_loop available bits 0 (take available s.initial_data) >>= λ r.
            ok (r.0, some r.1))
