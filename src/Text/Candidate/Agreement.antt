-- ===== src/Text/Candidate/Agreement.antt =====
-- However a candidate string is written down, the string table hashes it, compares it and makes a key
-- of it by its characters: src/rdx/rdx_objectmanager.cpp.
use rdx.Base.{
  ℕ, suc, ◌≡◌, refl, ap, ◌∙◌, inl, inr, true, false, List, [], ◌∷◌, ◌++◌, map, arith, ◌==◌, ltb,
  length, take, Bytes, Bool-cases, length-append,
}
use rdx.Base.Run.{ok, ◌>>=◌}
use rdx.Text.Count.{CandidateString}
use rdx.Text.Count.Total.{take-append}
use rdx.Digest.Buffer.Absorbed.{joined}
use rdx.Digest.Murmur3.{init32, hash_bytes}
use rdx.Digest.Murmur3.Pieces.{hash_bytes-joined}
use rdx.Text.Candidate.{
  first_cursor, hash_loop, hash_c_key, widened, same_units, compare_loop, compare_key,
  construct_loop, construct_key,
}
use rdx.Text.Candidate.Spelled.{
  same_chars, hash_loop-Spells, compare_loop-Spells, construct_loop-Spells,
}
use rdx.Text.Candidate.Formats.{
  Spelling, in_ascii, in_char, in_utf8, in_concatenated, chars, AllBelow, IsFit, IsDecoded,
  candidate, remaining,
}
use rdx.Text.Candidate.Formats.Decoded.{remaining-chars, candidate-Spells}

same_chars-length : (ks cs : List ℕ) → (length cs == length ks) ≡ false → same_chars ks cs ≡ false
same_chars-length [] [] h = h
same_chars-length [] (c ∷ cs) h = refl
same_chars-length (k ∷ ks) [] h = refl
same_chars-length (k ∷ ks) (c ∷ cs) h = elim (Bool-cases (k == c)) [
  | inl same ↦ rw same (same_chars-length ks cs (ground arith))
  | inr other ↦ rw other refl
]

same_units-chars :
    (cs behind ks : List ℕ)
    → length cs ≡ length ks
    → same_units (cs ++ behind) ks ≡ ok (same_chars ks cs)
unfolding same_units
same_units-chars [] behind [] h = refl
same_units-chars [] behind (k ∷ ks) h = absurd (omega (arith, h))
same_units-chars (c ∷ cs) behind [] h = absurd (omega (arith, h))
same_units-chars (c ∷ cs) behind (k ∷ ks) h = elim (Bool-cases (k == c)) [
  | inl same ↦
      let turned : (c == k) ≡ true = ground arith in
      rw (same, turned) (same_units-chars cs behind ks (omega (arith, h)))
  | inr other ↦ let turned : (c == k) ≡ false = ground arith in rw (other, turned) refl
]

map-widened :
    (bits : ℕ) (cs behind : List ℕ)
    → AllBelow 128 cs
    → map (widened bits) (cs ++ behind) ≡ cs ++ map (widened bits) behind
map-widened bits [] behind a = refl
map-widened bits (c ∷ cs) behind (lt, a) =
    let plain : ltb c 128 ≡ true = ground arith in
    rw plain (ap (λ ds. c ∷ ds) (map-widened bits cs behind a))

-- what the table makes of a candidate with these characters
abbrev pub Agrees : ℕ → (ℕ → Bytes) → List ℕ → CandidateString → List ℕ → Type 0
Agrees bits char_bytes key s cs =
    (hash_c_key bits char_bytes s ≡ ok (hash_bytes (joined (map char_bytes cs))))
    × (compare_key bits s key ≡ ok (same_chars key cs))
    × (construct_key bits s ≡ ok cs)

take-whole : (cs : List ℕ) → take (length cs) cs ≡ cs
take-whole [] = refl
take-whole (c ∷ cs) = ap (λ ds. c ∷ ds) (take-whole cs)

-- The three loops, where the characters are decoded.
loops :
    (bits : ℕ) (char_bytes : ℕ → Bytes) (key : List ℕ) (t : Spelling)
    → IsFit bits t
    → IsDecoded t
    → (hash_loop bits char_bytes
          (suc (remaining (candidate bits t)))
          (candidate bits t)
          (first_cursor (candidate bits t))
          init32
        ≡ ok (hash_bytes (joined (map char_bytes (chars t)))))
      × (length key ≡ length (chars t)
          → compare_loop bits
              (key ++ 0 ∷ [])
              (suc (remaining (candidate bits t)))
              (candidate bits t)
              (first_cursor (candidate bits t))
            ≡ ok (same_chars key (chars t)))
      × ((construct_loop bits
              (suc (length (chars t)))
              (candidate bits t)
              (first_cursor (candidate bits t))
            >>= λ cs. ok (take (length (chars t)) cs))
          ≡ ok (chars t))
loops bits char_bytes key t fit d =
    let s : CandidateString = candidate bits t in
    let sp = candidate-Spells bits t fit d in
    let few = remaining-chars bits t fit d in
    (
      hash_loop-Spells bits char_bytes _ s (first_cursor s) init32 (chars t) (omega (arith, few)) sp
          ∙ ap ok (hash_bytes-joined (map char_bytes (chars t))),
      λ same.
          compare_loop-Spells bits _ s (first_cursor s) key (0 ∷ []) (chars t) (omega (arith, few))
            same sp,
      ap (λ m. m >>= λ cs. ok (take (length (chars t)) cs))
            (construct_loop-Spells bits _ s (first_cursor s) (chars t) (omega arith) sp)
          ∙ ap ok (take-whole (chars t)),
    )

char-Agrees :
    (bits : ℕ) (char_bytes : ℕ → Bytes) (key cs behind : List ℕ)
    → Agrees bits char_bytes key (candidate bits (in_char cs behind)) cs
unfolding hash_c_key compare_key construct_key
char-Agrees bits char_bytes key cs behind =
    let within : ltb (length (cs ++ behind)) (length cs) ≡ false =
      ground (arith, length-append cs behind) in
    (
      rw (within, take-append cs behind) refl,
      elim (Bool-cases (length cs == length key)) [
        | inl same ↦ rw same (same_units-chars cs behind key (ground arith))
        | inr other ↦ rw (other, same_chars-length key cs other) refl
      ],
      rw (within, take-append cs behind) refl,
    )

-- For a candidate of characters in memory, in ASCII, in UTF-8 or in two strings to be concatenated,
-- the first of which is not empty, with any data behind: `HashCKey` is `rdxHashBytes` of the
-- characters in memory, `CompareKey` tells whether the characters are those of the key, and
-- `ConstructKey` gives an array of the characters. The sizes in bytes do not exceed the largest
-- size. The characters are below 128 in ASCII, where `rdxCHAR_Invalid` is above 127; in UTF-8 they
-- are code points, no surrogates, below `rdxCHAR_Invalid`, and in a concatenation they are below it
-- and take at least a byte each.
pub candidate-Agrees :
    (bits : ℕ) (char_bytes : ℕ → Bytes) (key : List ℕ) (t : Spelling)
    → IsFit bits t
    → Agrees bits char_bytes key (candidate bits t) (chars t)
unfolding hash_c_key compare_key construct_key
candidate-Agrees bits char_bytes key (in_char cs behind) fit =
    char-Agrees bits char_bytes key cs behind
candidate-Agrees bits char_bytes key (in_ascii cs behind) (a, w, m) =
    let (hash, _, made) = loops bits char_bytes key (in_ascii cs behind) (a, w, m) tt in
    (
      hash,
      elim (Bool-cases (length cs == length key)) [
        | inl same ↦
            rw (same, map-widened bits cs behind a)
              (same_units-chars cs (map (widened bits) behind) key (ground arith))
        | inr other ↦ rw (other, same_chars-length key cs other) refl
      ],
      made,
    )
candidate-Agrees bits char_bytes key (in_utf8 cs behind) fit =
    let (hash, compared, made) = loops bits char_bytes key (in_utf8 cs behind) fit tt in
    (
      hash,
      elim (Bool-cases (length cs == length key)) [
        | inl same ↦ rw same (compared (ground arith))
        | inr other ↦ rw (other, same_chars-length key cs other) refl
      ],
      made,
    )
candidate-Agrees bits char_bytes key (in_concatenated c cs behind1 ds behind2) fit =
    let t : Spelling = in_concatenated c cs behind1 ds behind2 in
    let (hash, compared, made) = loops bits char_bytes key t fit tt in
    (
      hash,
      elim (Bool-cases (length (c ∷ cs ++ ds) == length key)) [
        | inl same ↦ rw same (compared (ground arith))
        | inr other ↦ rw (other, same_chars-length key (c ∷ cs ++ ds) other) refl
      ],
      made,
    )
