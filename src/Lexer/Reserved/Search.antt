-- ===== src/Lexer/Reserved/Search.antt =====
-- The search for a reserved word by its first letter.
use native.Mathlib.Decide.{dec_lt, ℕ_discrete}
use rdx.Base.{
  ℕ, zero, suc, ◌+◌, ◌-◌, ◌<◌, ◌≤◌, ◌≡◌, ◌≢◌, refl, ap, sym, ◌∙◌, Bool, true, false, ◌&&◌, List, [],
  ◌∷◌, ◌++◌, ◌==◌, arith, leb, Bytes, length, get_or, Bool-cases, inl, inr,
}
use rdx.Lexer.Reserved.{
  TokenType, ReservedWord, reserved_words, same_text, matches, search_row, classify_name,
}

le_leb : (a b : ℕ) → a ≤ b → leb a b ≡ true
le_leb a b h = ground arith

lt_leb : (a b : ℕ) → b < a → leb a b ≡ false
lt_leb a b h = ground arith

gt_leb : (a b : ℕ) → leb a b ≡ false → b < a
gt_leb a b h = ground arith

abbrev pub first : Bytes → ℕ
first text = get_or text 0 0

-- All the words of a row have one first letter, and those of the next row the next one.
abbrev row_starts : ℕ → List ReservedWord → Bool
row_starts i [] = true
row_starts i (w ∷ ws) = first w.text == i && row_starts i ws

abbrev rows_start : ℕ → List (List ReservedWord) → Bool
rows_start i [] = true
rows_start i (r ∷ rs) = row_starts i r && rows_start (suc i) rs

abbrev pub all_words : List (List ReservedWord) → List ReservedWord
all_words [] = []
all_words (r ∷ rs) = r ++ all_words rs

same_text_first : (xs ys : Bytes) → same_text xs ys ≡ true → first xs ≡ first ys
unfolding same_text
same_text_first [] [] h = refl
same_text_first [] (y ∷ ys) h = cc
same_text_first (x ∷ xs) [] h = cc
same_text_first (x ∷ xs) (y ∷ ys) h = ground arith

matches-first :
    (chars : Bytes) (w : ReservedWord) → first w.text ≢ first chars → matches chars w ≡ false
unfolding matches
matches-first chars w ne = elim (Bool-cases (same_text chars w.text)) [
  | inl e ↦ absurd (ne (sym (same_text_first chars w.text e)))
  | inr e ↦ rw e (ground arith)
]

pub search_row-append :
    (chars : Bytes) (xs ys : List ReservedWord) (found : TokenType)
    → search_row chars (xs ++ ys) found ≡ search_row chars xs (search_row chars ys found)
unfolding search_row
search_row-append chars [] ys found = refl
search_row-append chars (w ∷ ws) ys found = rw (search_row-append chars ws ys found) refl

other_row :
    (chars : Bytes) (i : ℕ) (row : List ReservedWord) (found : TokenType)
    → row_starts i row ≡ true
    → first chars ≢ i
    → search_row chars row found ≡ found
unfolding search_row
other_row chars i [] found h ne = refl
other_row chars i (w ∷ ws) found h ne =
    rw (matches-first chars w (λ e. ne (ground arith)))
      (other_row chars i ws found (ground arith) ne)

later_rows :
    (chars : Bytes) (i : ℕ) (rows : List (List ReservedWord)) (found : TokenType)
    → rows_start i rows ≡ true
    → first chars < i
    → search_row chars (all_words rows) found ≡ found
unfolding search_row
later_rows chars i [] found h lt = refl
later_rows chars i (r ∷ rs) found h lt =
    search_row-append chars r (all_words rs) found
    ∙ other_row chars i r _ (ground arith) (λ e. absurd (omega (arith, e, lt)))
    ∙ later_rows chars (suc i) rs found (ground arith) (omega (arith, lt))

one_row :
    (chars : Bytes) (i k : ℕ) (rows : List (List ReservedWord)) (found : TokenType)
    → rows_start i rows ≡ true
    → first chars ≡ k + i
    → search_row chars (all_words rows) found ≡ search_row chars (get_or rows k []) found
unfolding search_row
one_row chars i k [] found h e = refl
one_row chars i zero (r ∷ rs) found h e =
    search_row-append chars r (all_words rs) found
    ∙ ap (search_row chars r) (later_rows chars (suc i) rs found (ground arith) (omega (arith, e)))
one_row chars i (suc k) (r ∷ rs) found h e =
    search_row-append chars r (all_words rs) found
    ∙ other_row chars i r _ (ground arith) (λ e'. absurd (omega (arith, e, e')))
    ∙ one_row chars (suc i) k rs found (ground arith) (omega (arith, e))

no_row : (rows : List (List ReservedWord)) (k : ℕ) → length rows ≤ k → get_or rows k [] ≡ []
no_row [] k h = refl
no_row (r ∷ rs) zero h = absurd (omega arith)
no_row (r ∷ rs) (suc k) h = no_row rs k (omega arith)

rows_of : (c : ℕ) → b'z' < c → get_or reserved_words (c - b'a') [] ≡ []
rows_of c h = elim (ℕ_discrete c 123) [
  | yes e ↦ rw e refl
  | no ne ↦ no_row reserved_words (c - b'a') (omega arith)
]

reserved_words_start : rows_start b'a' reserved_words ≡ true
reserved_words_start = refl

-- the row of a character that is no small letter
abbrev row : ℕ → List ReservedWord
row c = get_or reserved_words (c - b'a') []

pub in_row :
    (chars : Bytes)
    → b'a' ≤ first chars
    → classify_name chars ≡ search_row chars (row (first chars)) TokenType.name
unfolding classify_name search_row
in_row chars h = elim (Bool-cases (leb (first chars) b'z')) [
  | inl e ↦ rw (le_leb _ _ h, e) refl
  | inr e ↦ rw (le_leb _ _ h, e, rows_of (first chars) (gt_leb _ _ e)) refl
]

pub no_letter : (chars : Bytes) → first chars < b'a' → classify_name chars ≡ TokenType.name
unfolding classify_name
no_letter chars h = rw (lt_leb _ _ h) refl

-- For any name, the search of the row of its first letter finds what a search of all the tables,
-- one after the other, finds: the same reserved word, or none.
pub classify_name-all_words :
    (chars : Bytes)
    → classify_name chars ≡ search_row chars (all_words reserved_words) TokenType.name
classify_name-all_words chars = elim (dec_lt (first chars) b'a') [
  | yes lt ↦
      no_letter chars lt
      ∙ sym (later_rows chars b'a' reserved_words TokenType.name reserved_words_start lt)
  | no ge ↦
      in_row chars (omega arith)
      ∙ sym (
          one_row chars b'a' (first chars - b'a') reserved_words TokenType.name reserved_words_start
            (omega arith))
]
