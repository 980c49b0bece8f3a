-- ===== src/Lexer/Scan/Lexed.antt =====
-- What `LexSingle` of src/rdxcompilerservices/rdxc_lexstate.cpp takes at the offset of a token.
use rdx.Base.{
  ℕ, ap, ◌+◌, ◌-◌, ◌<◌, ◌≡◌, refl, inl, inr, Bool, true, false, ◌&&◌, arith, ◌==◌, if◌then◌else◌,
  get_or, length, Bytes, ==_iff,
}
use rdx.Lexer.Reserved.{TokenType, punctuation}
use rdx.Lexer.{
  Lexer, unknown_symbol, Memory, match_punctuation, is_digit, is_name_char, is_name_start_char,
}
use rdx.Lexer.Scan.Ends.{Ends, Ends-bind, Ends-elim, Ends-map, read-ok, read-end, IsOpen}
use rdx.Lexer.Scan.Blank.{Readable}
use rdx.Lexer.Scan.Loops.{Went, string_loop-Went}
use rdx.Lexer.Scan.Longest.{name_at, number_at, AllBetween, Took, name_loop-Took, number_loop-Took}
use rdx.Lexer.Scan.Symbols.{between, Matched, match_punctuation-Matched}
use rdx.Lexer.Scan.{fuel_for, string_loop, number_loop, name_loop, found, lex_token, fail}

module _ (str : Bytes) where
  -- The text of a token is what stands between two offsets, all of it passes a test, and no longer
  -- text would do.
  pub record IsLongest (p : ℕ → Bool) (s t : Lexer) : Type 0 where
    pub text : t.return_str ≡ between str s.offset t.offset
    pub all : AllBetween str p s.offset t.offset
    pub longest : t.offset < length str → p t.offset ≡ false

  -- What is found at the offset of a state: every token moves the offset.
  pub data Lexed (s t : Lexer) : Type 0 where
    string_constant : get_or str s.offset 0 ≡ b'"' → Went str s t → Lexed s t
    number :
        t.token_type ≡ TokenType.number → Went str s t → IsLongest (number_at str) s t → Lexed s t
    name : t.token_type ≡ TokenType.name → Went str s t → IsLongest (name_at str) s t → Lexed s t
    symbol :
        t.token_type ≡ punctuation
        → Went str s t
        → t.return_str ≡ between str s.offset t.offset
        → Lexed s t
    no_symbol :
        t.error_code ≡ unknown_symbol → t.offset ≡ s.offset → s.offset < length str → Lexed s t

  Took-found :
      (p : ℕ → Bool) (s : Lexer) (r : ℕ × Lexer) (kind : TokenType)
      → Took str p s r
      → Went str s (found str kind s.offset r) × IsLongest p s (found str kind s.offset r)
  Took-found p s r kind k =
      let size : (r.0 - s.offset + 1 ≡ r.1.offset - s.offset) = omega (arith, k.last, k.onward) in
      (
        (k.onward, k.inside, k.flag),
        record { text = rw size refl; all = k.all; longest = k.longest },
      )

  digit_starts : (i : ℕ) → is_digit (get_or str i 0) ≡ true → number_at str i ≡ true
  unfolding is_digit
  digit_starts i h = ground arith

  name_starts : (i : ℕ) → is_name_start_char (get_or str i 0) ≡ true → name_at str i ≡ true
  unfolding is_name_char
  name_starts i h = ground arith

  digit_not_split :
      (i : ℕ)
      → is_digit (get_or str i 0) ≡ true
      → i + 1 < length str
      → (get_or str i 0 == b'^' && get_or str (i + 1) 0 == b'-') ≡ false
  unfolding is_digit
  digit_not_split i h lt = ground arith

  symbol_or_not :
      (s : Lexer) (r : Bool × Lexer)
      → IsOpen str s
      → Matched str s r
      → Lexed s (if r.0 then r.1 else fail str unknown_symbol r.1)
  symbol_or_not s (true, t) o k =
      symbol (k.kind refl) (k.onward refl, k.inside, k.flag) (k.text refl)
  symbol_or_not s (false, t) o k =
      let e = k.kept refl in no_symbol refl (ap (λ u. u.offset) e) o.inside

  module _ (B : Type 0) where
    pub lex_token-Lexed :
        (m : Memory) (s : Lexer) → Readable str B s → Ends B (lex_token str m s) (Lexed s)
    unfolding lex_token
    lex_token-Lexed m s (inr (b, e)) = rw (read-end str s.offset e) b
    lex_token-Lexed m s (inl o) = rw (read-ok str s.offset o.inside) (
        Ends-elim B (get_or str s.offset 0 == b'"') _ _ (Lexed s)
          (λ q.
            Ends-map B (string_loop str (fuel_for str) m s) (Went str s) (Lexed s)
              (string_loop-Went str B (fuel_for str) m s o (omega arith))
              λ t. string_constant ((==_iff _ _).0 q))
          λ _.
            Ends-elim B (is_digit (get_or str s.offset 0)) _ _ (Lexed s)
              (λ d.
                Ends-bind B (number_loop str (fuel_for str) s.offset s) _
                  (Took str (number_at str) s) (Lexed s)
                  (number_loop-Took str B (fuel_for str) s o (omega arith) (digit_starts _ d)
                    (digit_not_split _ d))
                  λ r k. let (w, l) = Took-found _ s r TokenType.number k in number refl w l)
              λ _.
                Ends-elim B (is_name_start_char (get_or str s.offset 0)) _ _ (Lexed s)
                  (λ d.
                    Ends-bind B (name_loop str (fuel_for str) s.offset s) _
                      (Took str (name_at str) s) (Lexed s)
                      (name_loop-Took str B (fuel_for str) s o (omega arith) (name_starts _ d))
                      λ r k. let (w, l) = Took-found _ s r TokenType.name k in name refl w l)
                  λ _.
                    Ends-bind B (match_punctuation str s) _ (Matched str s) (Lexed s)
                      (match_punctuation-Matched str B s o) λ r. symbol_or_not s r o)
