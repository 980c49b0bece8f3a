-- ===== src/Lexer/Reserved/Shadowed.antt =====
-- A reserved word that is never found: src/rdxcompilerservices/rdxc_lexstate.cpp.
use native.Mathlib.Decide.{dec_lt, ℕ_discrete}
use rdx.Base.{
  ℕ, zero, suc, ◌-◌, ◌≡◌, ◌≢◌, refl, ap, sym, ◌∙◌, Bool, true, false, not, take, drop, codes, ◌&&◌,
  List, [], ◌∷◌, arith, Bytes, get_or, Bool-cases, inl, inr,
}
use rdx.Lexer.Reserved.{
  TokenType, rw_type_of, rw_type_def, reserved_words_t, ReservedWord, reserved_words, matches,
  search_row, classify_name,
}
use rdx.Lexer.Reserved.Search.{first, search_row-append, no_letter, in_row}

abbrev is_type_of : TokenType → Bool
is_type_of rw_type_of = true
is_type_of kind = false

abbrev unlisted : List ReservedWord → Bool
unlisted [] = true
unlisted (w ∷ ws) = not (is_type_of w.token_type) && unlisted ws

abbrev unlisted_rows : List (List ReservedWord) → Bool
unlisted_rows [] = true
unlisted_rows (r ∷ rs) = unlisted r && unlisted_rows rs

unlisted_row :
    (chars : Bytes) (ws : List ReservedWord)
    → unlisted ws ≡ true
    → is_type_of (search_row chars ws TokenType.name) ≡ false
unfolding search_row
unlisted_row chars [] h = refl
unlisted_row chars (w ∷ ws) h = elim (Bool-cases (matches chars w)) [
  | inl e ↦ rw e (ground arith)
  | inr e ↦ rw e (unlisted_row chars ws (ground arith))
]

unlisted_get :
    (rows : List (List ReservedWord)) (k : ℕ)
    → unlisted_rows rows ≡ true
    → unlisted (get_or rows k []) ≡ true
unlisted_get [] k h = refl
unlisted_get (r ∷ rs) zero h = ground arith
unlisted_get (r ∷ rs) (suc k) h = unlisted_get rs k (ground arith)

-- the rows but one
abbrev unlisted_but : ℕ → List (List ReservedWord) → Bool
unlisted_but n [] = true
unlisted_but zero (r ∷ rs) = unlisted_rows rs
unlisted_but (suc n) (r ∷ rs) = unlisted r && unlisted_but n rs

unlisted_get_but :
    (n : ℕ) (rows : List (List ReservedWord)) (k : ℕ)
    → unlisted_but n rows ≡ true
    → k ≢ n
    → unlisted (get_or rows k []) ≡ true
unlisted_get_but n [] k h ne = refl
unlisted_get_but zero (r ∷ rs) zero h ne = absurd (ne refl)
unlisted_get_but zero (r ∷ rs) (suc k) h ne = unlisted_get rs k h
unlisted_get_but (suc n) (r ∷ rs) zero h ne = ground arith
unlisted_get_but (suc n) (r ∷ rs) (suc k) h ne =
    unlisted_get_but n rs k (ground arith) (λ e. ne (ap suc e))

-- a word behind another with the same text
shadowed :
    (chars : Bytes) (k1 k2 : TokenType) (found : TokenType) (text : Bytes)
    → search_row chars
        (record { text = text; token_type = k1 } ∷ record { text = text; token_type = k2 } ∷ [])
        found
      ≡ search_row chars (record { text = text; token_type = k1 } ∷ []) found
unfolding search_row matches
shadowed chars k1 k2 found text = ground arith

row_t : (chars : Bytes) → is_type_of (search_row chars reserved_words_t TokenType.name) ≡ false
row_t chars =
    ap is_type_of
      (search_row-append chars (take 5 reserved_words_t) (drop 5 reserved_words_t) TokenType.name)
    ∙ ap (λ k. is_type_of (search_row chars (take 5 reserved_words_t) k))
        (shadowed chars rw_type_def rw_type_of TokenType.name (codes "typedef"))
    ∙ ap is_type_of (
        sym (
          search_row-append chars (take 5 reserved_words_t) (take 1 (drop 5 reserved_words_t))
            TokenType.name))
    ∙ unlisted_row chars (take 6 reserved_words_t) refl

in_rows :
    (chars : Bytes) (k : ℕ)
    → is_type_of (search_row chars (get_or reserved_words k []) TokenType.name) ≡ false
in_rows chars k = elim (ℕ_discrete k 19) [
  | yes e ↦ rw e (row_t chars)
  | no ne ↦ unlisted_row chars _ (unlisted_get_but 19 reserved_words k refl ne)
]

-- No name is classified as the word whose text stands in the table for the word before it.
pub classify_name-never_type_of : (chars : Bytes) → classify_name chars ≢ rw_type_of
classify_name-never_type_of chars h =
    let no = ap is_type_of (sym h) ∙ (elim (dec_lt (first chars) b'a') [
      | yes lt ↦ ap is_type_of (no_letter chars lt)
      | no ge ↦ ap is_type_of (in_row chars (omega arith)) ∙ in_rows chars (first chars - b'a')
    ]) in
    cc no
