-- ===== src/Tests/Candidate.antt =====
-- src/rdx/rdx_objectmanager.cpp: the theorem on candidate strings at a concrete input, and candidates it
-- does not cover.
use rdx.Base.{ℕ, ◌≡◌, refl, false, true, [], ◌∷◌, ◌/◌, ◌%◌, arith, Bytes}
use rdx.Base.Run.{ok, out_of_bounds}
use rdx.Text.Count.{CandidateString, ascii, concatenated}
use rdx.Text.Candidate.{decode_character, construct_loop, construct_key, compare_loop, compare_key}
use rdx.Text.Candidate.Formats.{Spelling, in_concatenated, IsFit, candidate}
use rdx.Text.Candidate.Agreement.{Agrees, candidate-Agrees}

-- 16-bit characters in memory, the low byte first
abbrev little_endian : ℕ → Bytes
little_endian c = c % 256 ∷ c / 256 ∷ []

-- "ab" and "c", each with its terminator
abbrev abc : Spelling
abc = in_concatenated 97 (98 ∷ []) (0 ∷ []) (99 ∷ []) (0 ∷ [])

abc-IsFit : IsFit 16 abc
abc-IsFit = ((omega arith, (omega arith, (omega arith, tt))), omega arith, omega arith)

candidate-Agrees_example :
    Agrees 16 little_endian (97 ∷ 98 ∷ 99 ∷ []) (candidate 16 abc) (97 ∷ 98 ∷ 99 ∷ [])
candidate-Agrees_example = candidate-Agrees 16 little_endian (97 ∷ 98 ∷ 99 ∷ []) abc abc-IsFit

found : compare_key 16 (candidate 16 abc) (97 ∷ 98 ∷ 99 ∷ []) ≡ ok true
unfolding compare_key compare_loop decode_character
found = refl

other_key : compare_key 16 (candidate 16 abc) (97 ∷ 98 ∷ 100 ∷ []) ≡ ok false
unfolding compare_key compare_loop decode_character
other_key = refl

-- an empty string and "a": the terminator of the first is taken for the character
abbrev empty_first : CandidateString
empty_first = record {
  format = concatenated;
  num_raw_bytes1 = 0;
  num_raw_bytes2 = 2;
  initial_data = 0 ∷ [];
  secondary_data = 97 ∷ 0 ∷ [];
  num_characters = 1;
}

terminator_read : construct_key 16 empty_first ≡ ok (0 ∷ [])
unfolding construct_key construct_loop decode_character
terminator_read = refl

-- a byte above 127 in ASCII: the loop goes on at the same byte, and leaves the array
abbrev latin1 : CandidateString
latin1 = record {
  format = ascii;
  num_raw_bytes1 = 1;
  num_raw_bytes2 = 0;
  initial_data = 0xe9 ∷ [];
  secondary_data = [];
  num_characters = 1;
}

overrun : construct_key 16 latin1 ≡ out_of_bounds
unfolding construct_key construct_loop decode_character
overrun = refl
