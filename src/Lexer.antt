-- ===== src/Lexer.antt =====
-- src/rdxcompilerservices/rdxc_lexstate.cpp: the tokenizer `TokenLexer`.
-- `m_str` and `m_max` do not change, so the array is an argument and `m_max` its length. A read at or
-- past the end, which the code does not check, is `out_of_bounds`. `m_returnStr` with its size is the
-- list of the bytes that it points at.
pub mod Reserved
pub mod Scan
pub mod Token
use Prim.Native.String.{String}
use rdx.Base.{
  ℕ, zero, suc, ◌+◌, ◌-◌, ◌*◌, ◌%◌, Bool, true, false, not, ◌&&◌, ◌||◌, List, [], ◌∷◌, ◌++◌, Option,
  none, some, ltb, leb, ◌==◌, if◌then◌else◌, get_elem?, get_or, length, Bytes, u32, codes,
}
use rdx.Base.Run.{Run, ok, out_of_bounds, out_of_fuel, ◌>>=◌}
use rdx.Lexer.Reserved.{TokenType, unknown, punctuation}

-- the error codes that this file names
pub data ErrorCode : Type 0 where
  no_error unexpected_eof newline_in_string_constant unknown_escape : ErrorCode
  memory_allocation_failure unknown_symbol internal_error : ErrorCode

pub record Lexer : Type 0 where
  pub eof_flag : Bool
  pub line : ℕ
  pub offset : ℕ
  pub error_code : ErrorCode
  pub return_str : Bytes
  pub return_str_capacity : ℕ
  pub token_type : TokenType

-- the constructor
unfoldable pub start : ℕ → ℕ → Lexer
start line offset = record {
  eof_flag = false;
  line = line;
  offset = offset;
  error_code = no_error;
  return_str = [];
  return_str_capacity = 0;
  token_type = unknown;
}

-- an unchecked read of `m_str`
abbrev pub read : Bytes → ℕ → Run ℕ
read str i = elim (get_elem? str i) [ none ↦ out_of_bounds | some c ↦ ok c ]

abbrev pub peek1 : Bytes → Lexer → Run ℕ
peek1 str s = read str s.offset

-- `NextChar`, once the byte `c` at the offset has been read
unfoldable pub step_over : Bytes → ℕ → Lexer → Lexer
step_over str c s =
    let line = if c == b'\n' then u32 (s.line + 1) else s.line in
    let line' = if c == b'\r' then u32 (line + 1) else line in
    let offset = s.offset + 1 in
    if leb (length str) offset
    then record s { line = line'; offset = offset; eof_flag = true }
    else if c == b'\r' && not s.eof_flag && get_or str offset 0 == b'\n'
    then record s {
      line = line';
      offset = offset + 1;
      eof_flag = if leb (length str) (offset + 1) then true else s.eof_flag;
    }
    else record s { line = line'; offset = offset }

unfoldable pub next_char : Bytes → Lexer → Run Lexer
next_char str s = do c ← peek1 str s; ok (step_over str c s)

unfoldable pub peek2 : Bytes → Lexer → Option ℕ
peek2 str s =
    if leb (length str) s.offset || leb (length str) (s.offset + 1)
    then none
    else some (get_or str (s.offset + 1) 0)

unfoldable pub check2 : Bytes → ℕ → ℕ → Lexer → Bool
check2 str b1 b2 s =
    if leb (length str) s.offset || leb (length str) (s.offset + 1)
    then false
    else get_or str s.offset 0 == b1 && get_or str (s.offset + 1) 0 == b2

-- What the tokenizer takes from the platform: the largest signed size, and whether `realloc` gives a
-- buffer of some capacity.
pub record Memory : Type 0 where
  pub largeint_max : ℕ
  pub grants : ℕ → Bool

unfoldable pub append_char : Memory → ℕ → Lexer → Bool × Lexer
append_char m c s =
    if length s.return_str == s.return_str_capacity
    then (let doubled = s.return_str_capacity * 2 in
        let capacity = if doubled == 0 then 16 else doubled in
        if ltb m.largeint_max capacity
        then (false, record s { return_str_capacity = capacity })
        else if not (m.grants capacity)
        then (false, record s { return_str_capacity = capacity })
        else (
          true,
          record s { return_str_capacity = capacity; return_str = s.return_str ++ c ∷ [] },
        ))
    else (true, record s { return_str = s.return_str ++ c ∷ [] })

unfoldable pub is_digit : ℕ → Bool
is_digit c = leb b'0' c && leb c b'9'

unfoldable pub is_name_start_char : ℕ → Bool
is_name_start_char c = leb b'a' c && leb c b'z' || leb b'A' c && leb c b'Z' || c == b'_'

unfoldable pub is_name_char : ℕ → Bool
unfolding is_name_start_char is_digit
is_name_char c = is_name_start_char c || is_digit c

-- `has2 && b2 == b`
abbrev second_is : Option ℕ → ℕ → Bool
second_is none b = false
second_is (some b2) b = b2 == b

abbrev one_of_two : Option ℕ → ℕ → String → String → Option Bytes
one_of_two b2 b pair single = some (if second_is b2 b then codes pair else codes single)

abbrev doubled : Option ℕ → ℕ → String → String → String → Option Bytes
doubled b2 b assign twice single = some (
    if second_is b2 b'='
    then codes assign
    else if second_is b2 b
    then codes twice
    else codes single)

-- The switch of `MatchPunctuation`: `matchStr`, or none for NULL.
unfoldable pub match_str : ℕ → Option ℕ → Option Bytes
match_str b1 b2 =
    if b1 == b':'
    then one_of_two b2 b'<' ":<" ":"
    else if b1 == b'<'
    then one_of_two b2 b'=' "<=" "<"
    else if b1 == b'>'
    then one_of_two b2 b'=' ">=" ">"
    else if b1 == b'='
    then one_of_two b2 b'=' "==" "="
    else if b1 == b'!'
    then one_of_two b2 b'=' "!=" "!"
    else if b1 == b'+'
    then doubled b2 b'+' "+=" "++" "+"
    else if b1 == b'-'
    then doubled b2 b'-' "-=" "--" "-"
    else if b1 == b'*'
    then one_of_two b2 b'=' "*=" "*"
    else if b1 == b'/'
    then one_of_two b2 b'=' "/=" "/"
    else if b1 == b'&'
    then one_of_two b2 b'&' "&&" "&"
    else if b1 == b'|'
    then one_of_two b2 b'|' "||" "|"
    else if b1 == b';'
        || b1 == b','
        || b1 == b'{'
        || b1 == b'}'
        || b1 == b'['
        || b1 == b']'
        || b1 == b'('
        || b1 == b')'
        || b1 == b'.'
        || b1 == b'?'
    then some (b1 ∷ [])
    else none

-- `while(*matchStr) NextChar();`
unfoldable pub next_chars : Bytes → Bytes → Lexer → Run Lexer
unfolding next_char
next_chars str [] s = ok s
next_chars str (_ ∷ rest) s = next_char str s >>= next_chars str rest

unfoldable pub match_punctuation : Bytes → Lexer → Run (Bool × Lexer)
match_punctuation str s = do
  b1 ← peek1 str s
  elim (match_str b1 (peek2 str s)) [
    | none ↦ ok (false, s)
    | some text ↦ do
      t ← next_chars str text (record s { return_str = text })
      ok (true, record t { token_type = punctuation })
  ]
