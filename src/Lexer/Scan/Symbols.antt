-- ===== src/Lexer/Scan/Symbols.antt =====
-- `MatchPunctuation`.
use rdx.Base.{
  ℕ, sym, take, drop, zero, suc, ◌+◌, ◌-◌, ◌<◌, ◌≤◌, ◌≡◌, refl, ◌∙◌, ◌⊎◌, inl, inr, Bool, true,
  false, [], ◌∷◌, Option, none, some, arith, leb, ◌==◌, get_or, length, Bytes,
}
use rdx.Base.Run.{ok, ◌>>=◌}
use rdx.Lexer.Reserved.{punctuation}
use rdx.Lexer.{Lexer, peek2, next_char, next_chars, match_str, match_punctuation}
use rdx.Lexer.Scan.Longest.{next_char_by_one}
use rdx.Lexer.Scan.Ends.{Ends, Ends-bind, Ends-map, read-ok, IsOpen, Advanced}

-- The text is the first byte, or it and the second; neither is a carriage return.
abbrev Symbol : ℕ → Option ℕ → Bytes → Type 0
Symbol b1 b2 text =
    ((b1 == b'\r') ≡ false)
    × ((text ≡ b1 ∷ []) ⊎ (b : ℕ) × ((b == b'\r') ≡ false) × (b2 ≡ some b) × (text ≡ b1 ∷ b ∷ []))

match_str-Symbol :
    (b1 : ℕ) (b2 : Option ℕ) (text : Bytes) → match_str b1 b2 ≡ some text → Symbol b1 b2 text
unfolding match_str
match_str-Symbol b1 b2 text h = elim b2 [ none ↦ ground arith | some b ↦ ground arith ]

slice-one : (str : Bytes) (i : ℕ) → i < length str → take 1 (drop i str) ≡ get_or str i 0 ∷ []
slice-one [] i h = absurd (omega arith)
slice-one (x ∷ xs) zero h = refl
slice-one (x ∷ xs) (suc i) h = slice-one xs i (omega arith)

slice-two :
    (str : Bytes) (i : ℕ)
    → suc i < length str
    → take 2 (drop i str) ≡ get_or str i 0 ∷ get_or str (suc i) 0 ∷ []
slice-two [] i h = absurd (omega arith)
slice-two (x ∷ xs) zero h = rw (slice-one xs 0 (omega arith)) refl
slice-two (x ∷ xs) (suc i) h = slice-two xs i (omega arith)

module _ (str : Bytes) where
  -- the bytes from one offset to another
  abbrev pub between : ℕ → ℕ → Bytes
  between i j = take (j - i) (drop i str)

  -- A symbol was found, and the offset is behind it, or the state is as it was.
  pub record Matched (s : Lexer) (r : Bool × Lexer) : Type 0 where
    pub inside : r.1.offset ≤ length str
    pub flag : r.1.eof_flag ≡ leb (length str) r.1.offset
    pub onward : r.0 ≡ true → s.offset < r.1.offset
    pub text : r.0 ≡ true → r.1.return_str ≡ between s.offset r.1.offset
    pub kind : r.0 ≡ true → r.1.token_type ≡ punctuation
    pub kept : r.0 ≡ false → r.1 ≡ s

  peek2-inside :
      (s : Lexer) (b : ℕ)
      → peek2 str s ≡ some b
      → (suc s.offset < length str) × (get_or str (suc s.offset) 0 ≡ b)
  unfolding peek2
  peek2-inside s b h =
      let e : (s.offset + 1 ≡ suc s.offset) = omega arith in rw (sym e) (ground arith)

  open_at :
      (t : Lexer)
      → t.offset < length str
      → t.eof_flag ≡ leb (length str) t.offset
      → t.eof_flag ≡ false
  open_at t lt f = ground arith

  open_flag : (s : Lexer) → IsOpen str s → s.eof_flag ≡ leb (length str) s.offset
  open_flag s o = ground arith

  abbrev Stepped : ℕ → Lexer → Lexer → Type 0
  Stepped n s t = Advanced str s t × (t.offset ≡ s.offset + n)

  text_one :
      (s t : Lexer)
      → t.offset ≡ s.offset + 1
      → s.offset < length str
      → get_or str s.offset 0 ∷ [] ≡ between s.offset t.offset
  text_one s t e lt =
      let size : (t.offset - s.offset ≡ 1) = omega (arith, e) in
      rw size (sym (slice-one str s.offset lt))

  text_two :
      (s t : Lexer)
      → t.offset ≡ s.offset + 2
      → suc s.offset < length str
      → get_or str s.offset 0 ∷ get_or str (suc s.offset) 0 ∷ [] ≡ between s.offset t.offset
  text_two s t e lt =
      let size : (t.offset - s.offset ≡ 2) = omega (arith, e) in
      rw size (sym (slice-two str s.offset lt))

  both : (s t u : Lexer) → Stepped 1 s t → Stepped 1 t u → Stepped 2 s u
  both s t u (a, e) (a', e') = (
    record {
      onward = omega (arith, a.onward, a'.onward);
      inside = a'.inside;
      flag = a'.flag;
      same_text = a'.same_text ∙ a.same_text;
      same_error = a'.same_error ∙ a.same_error;
      same_type = a'.same_type ∙ a.same_type;
    },
    omega (arith, e, e'),
  )

  module _ (B : Type 0) where
    next_chars-Stepped1 :
        (s : Lexer) (x : ℕ)
        → IsOpen str s
        → (get_or str s.offset 0 == b'\r') ≡ false
        → Ends B (next_chars str (x ∷ []) s) (Stepped 1 s)
    unfolding next_chars
    next_chars-Stepped1 s x o h =
        Ends-bind B (next_char str s) _ (Stepped 1 s) (Stepped 1 s) (next_char_by_one str B s o h)
          λ t a. a

    next_chars-Stepped2 :
        (s : Lexer) (x y : ℕ)
        → IsOpen str s
        → (get_or str s.offset 0 == b'\r') ≡ false
        → suc s.offset < length str
        → (get_or str (suc s.offset) 0 == b'\r') ≡ false
        → Ends B (next_chars str (x ∷ y ∷ []) s) (Stepped 2 s)
    unfolding next_chars
    next_chars-Stepped2 s x y o h lt h2 =
        Ends-bind B (next_char str s) _ (Stepped 1 s) (Stepped 2 s) (next_char_by_one str B s o h)
          λ t a.
            let e : (t.offset ≡ suc s.offset) = omega (arith, a.1) in
            let o' : IsOpen str t = record {
              inside = omega (arith, e);
              more = open_at t (omega (arith, e)) a.0.flag;
            } in
            Ends-map B _ (Stepped 1 t) (Stepped 2 s) (next_chars-Stepped1 t y o' (rw e h2))
              λ u b. both s t u a b

    symbol_text :
        (s : Lexer) (text : Bytes)
        → IsOpen str s
        → match_str (get_or str s.offset 0) (peek2 str s) ≡ some text
        → Ends B (next_chars str text (record s { return_str = text })) (λ t.
          Advanced str (record s { return_str = text }) t × (text ≡ between s.offset t.offset))
    symbol_text s text o h =
        let (line, cases) = match_str-Symbol _ _ text h in
        elim cases [
          | inl e ↦ rw e (
              let s' = record s { return_str = get_or str s.offset 0 ∷ [] } in
              Ends-map B _ (Stepped 1 s') _
                (next_chars-Stepped1 s' _ (record { inside = o.inside; more = o.more }) line)
                λ t a. (a.0, text_one s t a.1 o.inside))
          | inr (b, line2, e2, e) ↦
              let p = peek2-inside s b e2 in
              rw (e, sym p.1)
                (let s' = record s {
                  return_str = get_or str s.offset 0 ∷ get_or str (suc s.offset) 0 ∷ [];
                } in
                  Ends-map B _ (Stepped 2 s') _
                    (next_chars-Stepped2 s' _ _ (record { inside = o.inside; more = o.more }) line
                      p.0 (rw p.1 line2))
                    λ t a. (a.0, text_two s t a.1 p.0))
        ]

    from_text :
        (s : Lexer) (found : Option Bytes)
        → IsOpen str s
        → match_str (get_or str s.offset 0) (peek2 str s) ≡ found
        → Ends B
            (elim found [
              | none ↦ ok (false, s)
              | some text ↦ do
                t ← next_chars str text (record s { return_str = text })
                ok (true, record t { token_type = punctuation })
            ])
            (Matched s)
    from_text s none o h = record {
      inside = omega (arith, o.inside);
      flag = open_flag s o;
      onward = λ q. cc;
      text = λ q. cc;
      kind = λ q. cc;
      kept = λ _. refl;
    }
    from_text s (some text) o h =
        Ends-bind B (next_chars str text (record s { return_str = text })) _ _ (Matched s)
          (symbol_text s text o h)
          λ t (a, e). record {
            inside = a.inside;
            flag = a.flag;
            onward = λ _. a.onward;
            text = λ _. a.same_text ∙ e;
            kind = λ _. refl;
            kept = λ q. cc;
          }

    pub match_punctuation-Matched :
        (s : Lexer) → IsOpen str s → Ends B (match_punctuation str s) (Matched s)
    unfolding match_punctuation
    match_punctuation-Matched s o =
        rw (read-ok str s.offset o.inside)
          (from_text s (match_str (get_or str s.offset 0) (peek2 str s)) o refl)
