-- ===== src/Lexer/Token.antt =====
-- `Export` and `NextTokenNative`.
pub mod Results
use rdx.Base.{ℕ, Bool, true, false, List, [], Option, none, some, Bytes, if◌then◌else◌}
use rdx.Base.Run.{Run, ok, out_of_bounds, ◌>>=◌}
use rdx.Lexer.Reserved.{TokenType, eof, classify_name}
use rdx.Lexer.{Lexer, ErrorCode, no_error, memory_allocation_failure, Memory, start}
use rdx.Lexer.Scan.{lex_single}

-- a file name is a reference, which the tokenizer passes on
pub record CodeLocation : Type 0 where
  pub filename : Option ℕ
  pub line : ℕ

pub record Token : Type 0 where
  pub code_location : CodeLocation
  pub token_type : TokenType
  pub str : Option Bytes

-- `r_1` to `r_4`
pub record Exported : Type 0 where
  pub is_eof : Bool
  pub token : Token
  pub err_code : ErrorCode
  pub new_offset : ℕ

-- `tk.tokenType`, with the string of the token
unfoldable pub token_kind : TokenType → Bytes → TokenType
token_kind TokenType.name chars = classify_name chars
token_kind kind chars = kind

-- `Export`; `create_string` stands for `CreateStringUTF8` of the object manager, and returns none
-- where that throws.
unfoldable pub export : (Bytes → Option Bytes) → CodeLocation → Lexer → Exported
unfolding token_kind
export create_string passed s =
    if s.eof_flag
    then record {
      is_eof = true;
      token = record {
        code_location = record { filename = none; line = s.line };
        token_type = eof;
        str = none;
      };
      err_code = no_error;
      new_offset = 0;
    }
    else elim (create_string s.return_str) [
      | some chars ↦ record {
        is_eof = false;
        token = record {
          code_location = record { filename = passed.filename; line = s.line };
          token_type = token_kind s.token_type chars;
          str = some chars;
        };
        err_code = no_error;
        new_offset = s.offset;
      }
      | none ↦ record {
        is_eof = true;
        token = record {
          code_location = record { filename = none; line = 0 };
          token_type = eof;
          str = none;
        };
        err_code = memory_allocation_failure;
        new_offset = 0;
      }
    ]

-- `NextTokenNative` on an array that is not null
unfoldable pub next_token :
    (Bytes → Option Bytes) → Memory → Bytes → ℕ → CodeLocation → Run Exported
next_token create_string m bytes offset current = do
  s ← lex_single bytes m (start current.line offset)
  let e = export create_string current s
  ok (record e {
    token = record e.token {
      code_location = record e.token.code_location { filename = current.filename };
    };
  })
