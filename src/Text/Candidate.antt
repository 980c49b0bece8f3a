-- ===== src/Text/Candidate.antt =====
-- Candidate strings and the keys of the string table: `DecodeCharacter` of `rdxSCandidateString`, and
-- `HashCKey`, `CompareKey` and `ConstructKey` of `rdxCHashMapStringTable`, in
-- src/rdx/rdx_objectmanager.cpp. The bytes of a character in memory are a parameter. The loops take
-- fuel, or end with a key.
pub mod Spelled
pub mod Formats
pub mod Agreement
use rdx.Base.{
  ℕ, zero, suc, ◌+◌, ◌-◌, ◌*◌, ◌/◌, ◌^◌, Bool, true, false, not, ◌&&◌, List, [], ◌∷◌, ◌++◌, Option,
  none, some, map, ltb, ◌==◌, if◌then◌else◌, length, take, Bytes, u64,
}
use rdx.Base.Run.{Run, ok, out_of_bounds, out_of_fuel, ◌>>=◌}
use rdx.Text.Utf8.{decode_utf8_char}
use rdx.Text.Count.{StringFormat, utf8, ascii, char, concatenated, CandidateString, invalid}
use rdx.Digest.Buffer.{Hash}
use rdx.Digest.Buffer.Absorbed.{joined}
use rdx.Digest.Murmur3.{init32, feed_bytes32, flush32, hash_bytes}

-- `*pData` and `*pAvailableBytes`
pub record Cursor : Type 0 where
  pub data_left : List ℕ
  pub available : ℕ

-- `sizeof(rdxChar)`
abbrev pub char_size : ℕ → ℕ
char_size bits = bits / 8

-- `availableBytes - n`
abbrev pub less : ℕ → ℕ → ℕ
less available n = u64 (available + (18446744073709551616 - n))

-- The cases of `DecodeCharacter`. Bytes of UTF-8 behind the available ones are not looked at.
abbrev pub decoded_utf8 : ℕ → Cursor → Option (ℕ × Bytes) → Run (ℕ × Cursor)
decoded_utf8 bits cur none = ok (invalid bits, cur)
decoded_utf8 bits cur (some (c, rest)) =
    ok (c, record { data_left = rest; available = length rest })

abbrev pub decode_utf8 : ℕ → Cursor → Run (ℕ × Cursor)
decode_utf8 bits cur =
    if ltb (length cur.data_left) cur.available
    then out_of_bounds
    else decode_utf8_char bits (take cur.available cur.data_left) >>= decoded_utf8 bits cur

abbrev pub decode_ascii : ℕ → ℕ → List ℕ → Run (ℕ × Cursor)
decode_ascii bits available [] = out_of_bounds
decode_ascii bits available (b ∷ rest) =
    if ltb b 128
    then ok (b, record { data_left = rest; available = less available 1 })
    else ok (invalid bits, record { data_left = b ∷ rest; available = available })

abbrev pub decode_char : ℕ → ℕ → List ℕ → Run (ℕ × Cursor)
decode_char bits available [] = out_of_bounds
decode_char bits available (c ∷ rest) =
    ok (c, record { data_left = rest; available = less available (char_size bits) })

abbrev pub decode_concatenated : ℕ → ℕ → List ℕ → ℕ → List ℕ → Run (ℕ × Cursor)
decode_concatenated bits num_raw_bytes2 secondary available [] = out_of_bounds
decode_concatenated bits num_raw_bytes2 secondary available (c ∷ rest) =
    let left = less available (char_size bits) in
    ok (
      c,
      record { data_left = if left == num_raw_bytes2 then secondary else rest; available = left },
    )

-- A character, or `rdxCHAR_Invalid`, and where it leaves the cursor.
unfoldable pub decode_character : ℕ → CandidateString → Cursor → Run (ℕ × Cursor)
decode_character bits s cur = decode_in s.format
  where
    decode_in : StringFormat → Run (ℕ × Cursor)
    decode_in utf8 = decode_utf8 bits cur
    decode_in ascii = decode_ascii bits cur.available cur.data_left
    decode_in char = decode_char bits cur.available cur.data_left
    decode_in concatenated =
        decode_concatenated bits s.num_raw_bytes2 s.secondary_data cur.available cur.data_left

-- `csData` and `csBytesRemaining` in front of a loop
abbrev pub first_cursor : CandidateString → Cursor
first_cursor s = record {
  data_left = s.initial_data;
  available = u64 (s.num_raw_bytes1 + s.num_raw_bytes2);
}

abbrev pub is_char : StringFormat → Bool
is_char char = true
is_char format = false

module _ (bits : ℕ) (char_bytes : ℕ → Bytes) where
  -- the loop of `HashCKey`
  unfoldable pub hash_loop : ℕ → CandidateString → Cursor → Hash ℕ → Run ℕ
  unfolding decode_character
  hash_loop zero s cur hv = out_of_fuel
  hash_loop (suc fuel) s cur hv =
      let round = decode_character bits s cur >>= λ (c, cur').
      let more = hash_loop fuel s cur' (feed_bytes32 (char_bytes c) hv) in
      if c == invalid bits then ok (flush32 hv) else more in
      if cur.available == 0 then ok (flush32 hv) else round

  unfoldable pub hash_c_key : CandidateString → Run ℕ
  hash_c_key s =
      if is_char s.format
      then (if ltb (length s.initial_data) s.num_characters
          then out_of_bounds
          else ok (hash_bytes (joined (map char_bytes (take s.num_characters s.initial_data)))))
      else hash_loop (suc (u64 (s.num_raw_bytes1 + s.num_raw_bytes2))) s (first_cursor s) init32

-- `memcmp` of as many characters as a key has, and the loop over ASCII
unfoldable pub same_units : List ℕ → List ℕ → Run Bool
same_units units [] = ok true
same_units [] (k ∷ ks) = out_of_bounds
same_units (u ∷ us) (k ∷ ks) = let rest = same_units us ks in if u == k then rest else ok false

module _ (bits : ℕ) where
  -- a `char` of 8 bits with a sign, as a character
  abbrev pub widened : ℕ → ℕ
  widened b = if ltb b 128 then b else b + 2 ^ bits - 256

  -- the loop of `CompareKey` over decoded characters, and what is left of the array of the key
  unfoldable pub compare_loop : List ℕ → ℕ → CandidateString → Cursor → Run Bool
  unfolding decode_character
  compare_loop key zero s cur = out_of_fuel
  compare_loop [] (suc fuel) s cur =
      let round = decode_character bits s cur >>= λ (c, cur').
      if c == invalid bits then ok false else out_of_bounds in
      if cur.available == 0 then ok true else round
  compare_loop (k ∷ ks) (suc fuel) s cur =
      let round = decode_character bits s cur >>= λ (c, cur').
      let more = compare_loop ks fuel s cur' in
      if c == invalid bits then ok false else if k == c then more else ok false in
      if cur.available == 0 then ok true else round

  -- The array of a key has a terminator behind its characters.
  unfoldable pub compare_key : CandidateString → List ℕ → Run Bool
  compare_key s key = if not (s.num_characters == length key) then ok false else compare_in s.format
    where
      compare_in : StringFormat → Run Bool
      compare_in char = same_units s.initial_data key
      compare_in ascii = same_units (map widened s.initial_data) key
      compare_in utf8 =
          compare_loop (key ++ 0 ∷ []) (suc (u64 (s.num_raw_bytes1 + s.num_raw_bytes2))) s
            (first_cursor s)
      compare_in concatenated =
          compare_loop (key ++ 0 ∷ []) (suc (u64 (s.num_raw_bytes1 + s.num_raw_bytes2))) s
            (first_cursor s)

  -- The loop of `ConstructKey`, with the room that is left in the new array.
  unfoldable pub construct_loop : ℕ → CandidateString → Cursor → Run (List ℕ)
  unfolding decode_character
  construct_loop room s cur = filled room cur
    where
      filled : ℕ → Cursor → Run (List ℕ)
      filled zero cur = if cur.available == 0 then ok [] else out_of_bounds
      filled (suc room) cur =
          let round =
            decode_character bits s cur >>= λ (c, cur'). filled room cur' >>= λ cs. ok (c ∷ cs) in
          if cur.available == 0 then ok [] else round

  -- The characters written to the new array in front of its terminator, where it can be created.
  unfoldable pub construct_key : CandidateString → Run (List ℕ)
  construct_key s =
      if is_char s.format
      then (if ltb (length s.initial_data) s.num_characters
          then out_of_bounds
          else ok (take s.num_characters s.initial_data))
      else (construct_loop (suc s.num_characters) s (first_cursor s) >>= λ cs.
          ok (take s.num_characters cs))
