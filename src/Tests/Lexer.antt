-- ===== src/Tests/Lexer.antt =====
-- src/rdxcompilerservices/rdxc_lexstate.cpp: the tokenizer on small texts, and the theorems on it.
use rdx.Base.{
  ℕ, ◌+◌, ◌<◌, ◌≡◌, ◌≢◌, refl, Bool, true, false, not, ◌&&◌, Option, none, some, arith, ◌==◌, Bytes,
  codes, get_or, pass_below, pass_below-at,
}
use rdx.Base.Run.{Run, ok, out_of_bounds, out_of_fuel}
use rdx.Lexer.{
  Lexer, Memory, start, check2, next_char, step_over, append_char, is_digit, is_name_start_char,
  is_name_char, match_punctuation, match_str, peek2, next_chars,
}
use rdx.Lexer.Reserved.{
  TokenType, punctuation, eof, rw_if, rw_type_of, search_row, matches, same_text, classify_name,
  reserved_words,
}
use rdx.Lexer.Reserved.Search.{all_words, classify_name-all_words}
use rdx.Lexer.Reserved.Shadowed.{classify_name-never_type_of}
use Prim.Native.String.{String}
use rdx.Lexer.Scan.{
  lex_single, skip_blank, skip_space, skip_line, skip_block, line_comment, block_comment, lex_token,
  string_loop, string_round, append_or_fail, unescape, number_loop, name_loop,
}
use rdx.Lexer.Scan.Ends.{Ends}
use rdx.Lexer.Token.{CodeLocation, Exported, next_token, export, token_kind}
use rdx.Lexer.Token.Results.{Handed, next_token-Handed}
use rdx.Lexer.Scan.Progress.{Opened, lex_single_ends}

abbrev memory : Memory
memory = record { largeint_max = 1000; grants = λ n. true }

abbrev source : Bytes
source = codes "if (x1 <= 0.5f) // no"

-- whether a block comment is opened at an offset
abbrev opens : ℕ → Bool
opens i = get_or source i 0 == b'/' && get_or source (i + 1) 0 == b'*'

none_opens : pass_below 20 (λ i. not (opens i)) ≡ true
unfolding pass_below
none_opens = refl

opened : (s : Lexer) → check2 source b'/' b'*' s ≡ true → (s.offset < 20) × (opens s.offset ≡ true)
unfolding check2
opened s h = ground arith

source-Opened : Opened source ⊥
source-Opened s h =
    let (inside, opens_here) = opened s h in
    let not_here = pass_below-at 20 (λ i. not (opens i)) s.offset none_opens inside in ground arith

abbrev place : CodeLocation
place = record { filename = some 1; line = 1 }

next_token-Handed_example :
    Ends ⊥ (next_token (λ b. some b) memory source 3 place) (Handed source 3)
next_token-Handed_example = next_token-Handed ⊥ (λ b. some b) memory source 3 place source-Opened

lex_single_ends_example : lex_single source memory (start 1 3) ≢ out_of_fuel
unfolding start
lex_single_ends_example = lex_single_ends source memory (start 1 3) refl

classify_name-all_words_example :
    classify_name (codes "if") ≡ search_row (codes "if") (all_words reserved_words) TokenType.name
classify_name-all_words_example = classify_name-all_words (codes "if")

classify_name-never_type_of_example : classify_name (codes "typedef") ≢ rw_type_of
classify_name-never_type_of_example = classify_name-never_type_of (codes "typedef")

program : Unit {0}
unfolding lex_single skip_blank skip_space skip_line skip_block line_comment block_comment next_char
    step_over check2 lex_token string_loop string_round append_or_fail unescape append_char
    number_loop name_loop is_digit is_name_start_char is_name_char match_punctuation match_str peek2
    next_chars start export token_kind classify_name search_row matches same_text next_token
program = tt

abbrev lexed : String → ℕ → Run Exported
lexed text offset = next_token (λ b. some b) memory (codes text) offset place

abbrev kinds : Run Exported → Option (Bool × TokenType × Option Bytes × ℕ)
kinds (ok x) = some (x.is_eof, x.token.token_type, x.token.str, x.new_offset)
kinds _ = none

name_in_the_middle :
    kinds (lexed "if (x1 <= 0.5f) // no" 3) ≡ some (false, punctuation, some (codes "("), 4)
name_in_the_middle = unfold program in refl

keyword : kinds (lexed "if (x1 <= 0.5f) // no" 0) ≡ some (false, rw_if, some (codes "if"), 2)
keyword = unfold program in refl

number_with_caret :
    kinds (lexed "0.5^-3 " 0) ≡ some (false, TokenType.number, some (codes "0.5^-3"), 6)
number_with_caret = unfold program in refl

name_at_the_end : kinds (lexed "a+bc" 2) ≡ some (true, eof, none, 0)
name_at_the_end = unfold program in refl

comment_at_the_end : lexed "/* x */" 0 ≡ out_of_bounds
comment_at_the_end = unfold program in refl
