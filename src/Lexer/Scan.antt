-- ===== src/Lexer/Scan.antt =====
-- `LexSingle`: white space, comments, strings, numbers and names. A loop takes fuel; each round of
-- each loop moves the offset, so one more than the length of the array is enough. A loop in the
-- middle of `LexSingle` returns its state with whether `LexSingle` has returned from inside it.
pub mod Ends
pub mod Blank
pub mod Loops
pub mod Longest
pub mod Symbols
pub mod Ignored
pub mod Lexed
pub mod Progress
use rdx.Base.{
  ℕ, zero, suc, ◌+◌, ◌-◌, Bool, true, false, not, ◌&&◌, ◌||◌, List, [], ◌∷◌, Option, none, some,
  leb, ◌==◌, if◌then◌else◌, length, Bytes, take, drop,
}
use rdx.Base.Run.{Run, ok, out_of_fuel, ◌>>=◌}
use rdx.Lexer.Reserved.{TokenType}
use rdx.Lexer.{
  Lexer, ErrorCode, unexpected_eof, newline_in_string_constant, unknown_escape,
  memory_allocation_failure, unknown_symbol, Memory, peek1, next_char, check2, append_char,
  is_digit, is_name_start_char, is_name_char, match_punctuation,
}

module _ (str : Bytes) where
  -- `while(Peek1() <= wsByte) { NextChar(); if(m_eofFlag) return; }`
  unfoldable pub skip_space : ℕ → Lexer → Run (Bool × Lexer)
  skip_space zero s = out_of_fuel
  skip_space (suc fuel) s = do
    c ← peek1 str s
    elim (leb c b' ') [
      | true ↦ do
        t ← next_char str s
        elim t.eof_flag [ true ↦ ok (true, t) | false ↦ skip_space fuel t ]
      | false ↦ ok (false, s)
    ]

  -- `while(b != '\n' && b != '\r') { NextChar(); if(m_eofFlag) return; b = Peek1(); }`
  unfoldable pub skip_line : ℕ → Lexer → Run (Bool × Lexer)
  skip_line zero s = out_of_fuel
  skip_line (suc fuel) s = do
    c ← peek1 str s
    elim (c == b'\n' || c == b'\r') [
      | true ↦ ok (false, s)
      | false ↦ do
        t ← next_char str s
        elim t.eof_flag [ true ↦ ok (true, t) | false ↦ skip_line fuel t ]
    ]

  abbrev pub fail : ErrorCode → Lexer → Lexer
  fail e s = record s { error_code = e }

  -- `while(!Check2('*', '/')) { NextChar(); if(m_eofFlag) { … return; } }`
  unfoldable pub skip_block : ℕ → Lexer → Run (Bool × Lexer)
  skip_block zero s = out_of_fuel
  skip_block (suc fuel) s = elim (check2 str b'*' b'/' s) [
    | true ↦ ok (false, s)
    | false ↦ do
      t ← next_char str s
      elim t.eof_flag [ true ↦ ok (true, fail unexpected_eof t) | false ↦ skip_block fuel t ]
  ]

  abbrev pub fuel_for : ℕ
  fuel_for = suc (length str)

  -- `if(Check2('/', '/'))`: whether the rest of `LexSingle` is left out, and `moreWS`
  unfoldable pub line_comment : Lexer → Run (Bool × Bool × Lexer)
  line_comment s =
      if check2 str b'/' b'/' s
      then (skip_line fuel_for s >>= λ r. ok (r.0, true, r.1))
      else ok (false, false, s)

  -- `if(Check2('/', '*'))`
  unfoldable pub block_comment : Lexer → Run (Bool × Bool × Lexer)
  block_comment s =
      if check2 str b'/' b'*' s
      then (do
        s1 ← next_char str s
        s2 ← next_char str s1
        r ← skip_block fuel_for s2
        elim r.0 [
          | true ↦ ok (true, true, r.1)
          | false ↦ do s3 ← next_char str r.1; s4 ← next_char str s3; ok (false, true, s4)
        ])
      else ok (false, false, s)

  -- `while(moreWS)`
  unfoldable pub skip_blank : ℕ → Lexer → Run (Bool × Lexer)
  skip_blank zero s = out_of_fuel
  skip_blank (suc fuel) s = do
    r ← skip_space fuel_for s
    elim r.0 [
      | true ↦ ok (true, r.1)
      | false ↦ do
        l ← line_comment r.1
        elim l.0 [
          | true ↦ ok (true, l.2)
          | false ↦ do
            b ← block_comment l.2
            elim b.0 [
              | true ↦ ok (true, b.2)
              | false ↦ elim (l.1 || b.1) [ true ↦ skip_blank fuel b.2 | false ↦ ok (false, b.2) ]
            ]
        ]
    ]

  -- the switch on `escapeC`
  unfoldable pub unescape : ℕ → Option ℕ
  unescape c =
      if c == b'n'
      then some b'\n'
      else if c == b'r'
      then some b'\r'
      else if c == b't'
      then some b'\t'
      else if c == b'"'
      then some b'"'
      else if c == b'\\'
      then some b'\\'
      else none

  -- One round of the loop over a string constant; the flag says that the loop is left by `break`.
  pub data Round : Type 0 where
    again closed returned : Lexer → Round

  unfoldable pub append_or_fail : Memory → ℕ → Lexer → Round
  append_or_fail m c s =
      let r = append_char m c s in
      if r.0 then again r.1 else returned (fail memory_allocation_failure r.1)

  unfoldable pub string_round : Memory → Lexer → Run Round
  string_round m s = do
    t ← next_char str s
    elim t.eof_flag [
      | true ↦ ok (returned (fail unexpected_eof t))
      | false ↦ do
        c ← peek1 str t
        elim (c == b'\n' || c == b'\r') [
          | true ↦ ok (returned (fail newline_in_string_constant t))
          | false ↦ elim (c == b'"') [
            | true ↦ ok (closed t)
            | false ↦ elim (c == b'\\') [
              | false ↦ ok (append_or_fail m c t)
              | true ↦ do
                u ← next_char str t
                elim u.eof_flag [
                  | true ↦ ok (returned (fail unexpected_eof u))
                  | false ↦ do
                    e ← peek1 str u
                    elim (unescape e) [
                      | none ↦ ok (returned (fail unknown_escape u))
                      | some d ↦ ok (append_or_fail m d u)
                    ]
                ]
            ]
          ]
        ]
    ]

  unfoldable pub string_loop : ℕ → Memory → Lexer → Run Lexer
  string_loop zero m s = out_of_fuel
  string_loop (suc fuel) m s = do
    r ← string_round m s
    elim r [
      | again t ↦ string_loop fuel m t
      | returned t ↦ ok t
      | closed t ↦ do u ← next_char str t; ok (record u { token_type = TokenType.string })
    ]

  -- the bytes of `m_str` from `start`, `size` of them
  abbrev pub slice : ℕ → ℕ → Bytes
  slice start size = take size (drop start str)

  -- The loop over a number; its result is the state and `strEnd`.
  unfoldable pub number_loop : ℕ → ℕ → Lexer → Run (ℕ × Lexer)
  number_loop zero str_end s = out_of_fuel
  number_loop (suc fuel) str_end s = do
    t ← next_char str s
    elim t.eof_flag [
      | true ↦ ok (str_end, t)
      | false ↦ do
        c ← peek1 str t
        elim (not (is_digit c) && not (c == b'.') && not (c == b'f') && not (c == b'^')) [
          | true ↦ ok (str_end, t)
          | false ↦ elim (c == b'^' && check2 str b'^' b'-' t) [
            | true ↦ do u ← next_char str t; _ ← peek1 str u; number_loop fuel (str_end + 2) u
            | false ↦ number_loop fuel (str_end + 1) t
          ]
        ]
    ]

  -- The loop over a name.
  unfoldable pub name_loop : ℕ → ℕ → Lexer → Run (ℕ × Lexer)
  name_loop zero str_end s = out_of_fuel
  name_loop (suc fuel) str_end s = do
    t ← next_char str s
    elim t.eof_flag [
      | true ↦ ok (str_end, t)
      | false ↦ do
        c ← peek1 str t
        elim (is_name_char c) [ false ↦ ok (str_end, t) | true ↦ name_loop fuel (str_end + 1) t ]
    ]

  abbrev pub found : TokenType → ℕ → ℕ × Lexer → Lexer
  found kind str_start r = record r.1 {
    token_type = kind;
    return_str = slice str_start (r.0 - str_start + 1);
  }

  -- What follows the white space.
  unfoldable pub lex_token : Memory → Lexer → Run Lexer
  lex_token m s = do
    c ← peek1 str s
    elim (c == b'"') [
      | true ↦ string_loop fuel_for m s
      | false ↦ elim (is_digit c) [
        | true ↦ do r ← number_loop fuel_for s.offset s; ok (found TokenType.number s.offset r)
        | false ↦ elim (is_name_start_char c) [
          | true ↦ do r ← name_loop fuel_for s.offset s; ok (found TokenType.name s.offset r)
          | false ↦ do
            p ← match_punctuation str s
            ok (if p.0 then p.1 else fail unknown_symbol p.1)
        ]
      ]
    ]

  unfoldable pub lex_single : Memory → Lexer → Run Lexer
  lex_single m s =
      if leb (length str) s.offset
      then ok (record s { eof_flag = true })
      else (do r ← skip_blank fuel_for s; elim r.0 [ true ↦ ok r.1 | false ↦ lex_token m r.1 ])
