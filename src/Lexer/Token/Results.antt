-- ===== src/Lexer/Token/Results.antt =====
-- What `NextTokenNative` hands to its caller.
use rdx.Base.{
  ℕ, ◌<◌, ◌≤◌, ◌≡◌, refl, ◌⊎◌, inl, inr, true, false, Option, arith, length, Bytes, Bool-cases,
  Option-cases,
}
use rdx.Lexer.{Lexer, no_error, memory_allocation_failure, Memory, start}
use rdx.Lexer.Scan.{lex_single}
use rdx.Lexer.Scan.Ends.{Ends, Ends-bind}
use rdx.Lexer.Scan.Lexed.{Lexed, string_constant, number, name, symbol, no_symbol}
use rdx.Lexer.Scan.Progress.{Single, at_end, token, Opened, lex_single-Single}
use rdx.Lexer.Token.{CodeLocation, Exported, export, next_token}

-- A token that is exported ends before the end of the array, and not before the offset passed.
pub record Handed (bytes : Bytes) (offset : ℕ) (x : Exported) : Type 0 where
  pub onward : x.is_eof ≡ false → offset ≤ x.new_offset
  pub short : x.is_eof ≡ false → x.new_offset < length bytes
  pub errors : (x.err_code ≡ no_error) ⊎ (x.err_code ≡ memory_allocation_failure)

-- a state behind the offset, whose flag tells of the end
abbrev Behind : Bytes → ℕ → Lexer → Type 0
Behind bytes offset t = (offset ≤ t.offset) × ((t.eof_flag ≡ true) ⊎ (t.offset < length bytes))

Lexed-Behind : (bytes : Bytes) (s t : Lexer) → Lexed bytes s t → Behind bytes s.offset t
Lexed-Behind bytes s t (string_constant _ w) = ground (arith, w)
Lexed-Behind bytes s t (number _ w _) = ground (arith, w)
Lexed-Behind bytes s t (name _ w _) = ground (arith, w)
Lexed-Behind bytes s t (symbol _ w _) = ground (arith, w)
Lexed-Behind bytes s t (no_symbol _ e lt) = (omega (arith, e), inr (omega (arith, e, lt)))

Single-Behind : (bytes : Bytes) (s t : Lexer) → Single bytes s t → Behind bytes s.offset t
Single-Behind bytes s t (at_end e lt i) = (lt, inl e)
Single-Behind bytes s t (token u lt i b k) =
    let (onward, rest) = Lexed-Behind bytes u t k in (omega (arith, lt, onward), rest)

export-Handed :
    (create_string : Bytes → Option Bytes) (current : CodeLocation) (bytes : Bytes) (offset : ℕ)
    (t : Lexer)
    → Behind bytes offset t
    → Handed bytes offset (export create_string current t)
unfolding export
export-Handed create_string current bytes offset t (onward, stop) = elim (Bool-cases t.eof_flag) [
  | inl e ↦ rw e (record { onward = λ h. cc; short = λ h. cc; errors = inl refl })
  | inr e ↦ elim (Option-cases (create_string t.return_str)) [
    | inl n ↦ rw (e, n) (record { onward = λ h. cc; short = λ h. cc; errors = inr refl })
    | inr (chars, c) ↦
        rw (e, c)
          (record { onward = λ _. onward; short = λ _. ground (arith, stop, e); errors = inl refl })
  ]
]

-- `NextTokenNative` on any array and offset ends, in a read outside of the array only where a block
-- comment is opened somewhere in the array. What it exports as a token ends before the end of the
-- array and not before the offset passed, and it reports no error but a failed allocation.
pub next_token-Handed :
    (B : Type 0) (create_string : Bytes → Option Bytes) (m : Memory) (bytes : Bytes) (offset : ℕ)
    (current : CodeLocation)
    → Opened bytes B
    → Ends B (next_token create_string m bytes offset current) (Handed bytes offset)
unfolding next_token start
next_token-Handed B create_string m bytes offset current opened =
    Ends-bind B (lex_single bytes m (start current.line offset)) _
      (Single bytes (start current.line offset)) (Handed bytes offset)
      (lex_single-Single bytes B m (start current.line offset) refl opened)
      λ t k.
        let h = export-Handed create_string current bytes offset t (Single-Behind bytes _ t k) in
        record { onward = h.onward; short = h.short; errors = h.errors }
