-- ===== src/Text/Candidate/Formats.antt =====
-- The formats of a candidate string that spells given characters: src/rdx/rdx_objectmanager.cpp.
pub mod Decoded
use rdx.Base.{ℕ, ◌+◌, ◌*◌, ◌<◌, ◌≤◌, List, [], ◌∷◌, ◌++◌, length, u64}
use rdx.Text.Sizes.{largeuint_max}
use rdx.Text.Count.{CandidateString, utf8, ascii, char, concatenated, invalid}
use rdx.Text.Count.Total.{AllCountable, encode_utf8}
use rdx.Text.Candidate.{char_size}

-- characters below a bound
abbrev pub AllBelow : ℕ → List ℕ → Type 0
AllBelow n [] = Unit {0}
AllBelow n (c ∷ cs) = (c < n) × AllBelow n cs

-- The ways to write characters down, each with what stands in memory behind them. The first string
-- of a concatenation has a first character.
pub data Spelling : Type 0 where
  in_ascii in_char in_utf8 : List ℕ → List ℕ → Spelling
  in_concatenated : ℕ → List ℕ → List ℕ → List ℕ → List ℕ → Spelling

abbrev pub chars : Spelling → List ℕ
chars (in_ascii cs behind) = cs
chars (in_char cs behind) = cs
chars (in_utf8 cs behind) = cs
chars (in_concatenated c cs behind1 ds behind2) = c ∷ cs ++ ds

-- The characters can stand in the format, and the sizes do not overflow.
abbrev pub IsFit : ℕ → Spelling → Type 0
IsFit bits (in_ascii cs behind) =
    AllBelow 128 cs × (127 < invalid bits) × (length cs ≤ largeuint_max)
IsFit bits (in_char cs behind) = length cs * char_size bits ≤ largeuint_max
IsFit bits (in_utf8 cs behind) =
    AllCountable bits cs × (length (encode_utf8 bits cs) ≤ largeuint_max)
IsFit bits (in_concatenated c cs behind1 ds behind2) =
    AllBelow (invalid bits) (c ∷ cs ++ ds)
    × (1 ≤ char_size bits)
    × (length (c ∷ cs) * char_size bits + length ds * char_size bits ≤ largeuint_max)

abbrev pub candidate : ℕ → Spelling → CandidateString
candidate bits (in_ascii cs behind) = record {
  format = ascii;
  num_raw_bytes1 = length cs;
  num_raw_bytes2 = 0;
  initial_data = cs ++ behind;
  secondary_data = [];
  num_characters = length cs;
}
candidate bits (in_char cs behind) = record {
  format = char;
  num_raw_bytes1 = length cs * char_size bits;
  num_raw_bytes2 = 0;
  initial_data = cs ++ behind;
  secondary_data = [];
  num_characters = length cs;
}
candidate bits (in_utf8 cs behind) = record {
  format = utf8;
  num_raw_bytes1 = length (encode_utf8 bits cs);
  num_raw_bytes2 = 0;
  initial_data = encode_utf8 bits cs ++ behind;
  secondary_data = [];
  num_characters = length cs;
}
candidate bits (in_concatenated c cs behind1 ds behind2) = record {
  format = concatenated;
  num_raw_bytes1 = length (c ∷ cs) * char_size bits;
  num_raw_bytes2 = length ds * char_size bits;
  initial_data = (c ∷ cs) ++ behind1;
  secondary_data = ds ++ behind2;
  num_characters = length (c ∷ cs ++ ds);
}

-- Only the loops decode; characters in memory are copied.
abbrev pub IsDecoded : Spelling → Type 0
IsDecoded (in_ascii cs behind) = Unit {0}
IsDecoded (in_char cs behind) = ⊥
IsDecoded (in_utf8 cs behind) = Unit {0}
IsDecoded (in_concatenated c cs behind1 ds behind2) = Unit {0}

-- `csBytesRemaining` in front of a loop
abbrev pub remaining : CandidateString → ℕ
remaining s = u64 (s.num_raw_bytes1 + s.num_raw_bytes2)
