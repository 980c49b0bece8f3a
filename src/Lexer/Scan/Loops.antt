-- ===== src/Lexer/Scan/Loops.antt =====
-- The loops over a string constant, a number and a name.
use rdx.Base.{
  ℕ, zero, suc, ◌-◌, ◌<◌, ◌≤◌, ◌≡◌, ◌∙◌, inl, inr, ◌||◌, Option, none, some, arith, leb, ◌==◌,
  get_or, length, Bytes, Bool-cases,
}
use rdx.Base.Run.{ok, ◌>>=◌}
use rdx.Lexer.Reserved.{TokenType}
use rdx.Lexer.{Lexer, unknown_escape, Memory, next_char, append_char}
use rdx.Lexer.Scan.Ends.{
  Ends, Ends-bind, Ends-elim, Ends-map, read-ok, IsOpen, Advanced, Advanced-IsOpen,
  next_char-Advanced,
}
use rdx.Lexer.Scan.{
  unescape, Round, again, closed, returned, fail, append_or_fail, string_round, string_loop,
}

module _ (str : Bytes) where
  -- The offset has moved, and the flag tells whether it is at the end.
  abbrev pub Went : Lexer → Lexer → Type 0
  Went s t =
      (s.offset < t.offset) × (t.offset ≤ length str) × (t.eof_flag ≡ leb (length str) t.offset)

  pub Went-trans : (s t u : Lexer) → Went s t → Went t u → Went s u
  Went-trans s t u (p, _, _) (q, inside, flag) = (omega (arith, p, q), inside, flag)

  pub Advanced-Went : (s t : Lexer) → Advanced str s t → Went s t
  Advanced-Went s t a = (a.onward, a.inside, a.flag)

  abbrev Rounded : Lexer → Round str → Type 0
  Rounded s (again t) = Went s t × IsOpen str t
  Rounded s (closed t) = Went s t × IsOpen str t
  Rounded s (returned t) = Went s t

  -- appending leaves the offset and the flag
  append_char_keeps :
      (m : Memory) (c : ℕ) (s : Lexer)
      → ((append_char m c s).1.offset ≡ s.offset) × ((append_char m c s).1.eof_flag ≡ s.eof_flag)
  unfolding append_char
  append_char_keeps m c s = ground arith

  Went-append : (m : Memory) (c : ℕ) (s t : Lexer) → Went s t → Went s (append_char m c t).1
  Went-append m c s t w = let k = append_char_keeps m c t in rw (k.0, k.1) w

  appended :
      (m : Memory) (c : ℕ) (s t : Lexer)
      → Went s t
      → IsOpen str t
      → Rounded s (append_or_fail str m c t)
  unfolding append_or_fail
  appended m c s t w o =
      let k = append_char_keeps m c t in
      elim (Bool-cases (append_char m c t).0) [
        | inl e ↦
            rw e (Went-append m c s t w, record { inside = rw k.0 o.inside; more = k.1 ∙ o.more })
        | inr e ↦ rw e (Went-append m c s t w)
      ]

  module _ (B : Type 0) where
    escaped :
        (m : Memory) (s u : Lexer) (d : Option ℕ)
        → Went s u
        → IsOpen str u
        → Ends B
            (elim d [
              | none ↦ ok (returned (fail str unknown_escape u))
              | some c ↦ ok (append_or_fail str m c u)
            ])
            (Rounded s)
    escaped m s u none w q = w
    escaped m s u (some c) w q = appended m c s u w q

    string_round-Rounded :
        (m : Memory) (s : Lexer) → IsOpen str s → Ends B (string_round str m s) (Rounded s)
    unfolding string_round
    string_round-Rounded m s o =
        Ends-bind B (next_char str s) _ (Advanced str s) (Rounded s) (next_char-Advanced str B s o)
          λ t a.
            Ends-elim B t.eof_flag _ _ (Rounded s) (λ _. Advanced-Went s t a)
              λ e.
                let w = Advanced-Went s t a in
                let p = Advanced-IsOpen str s t a e in
                rw (read-ok str t.offset p.inside) (
                  Ends-elim B (get_or str t.offset 0 == b'\n' || get_or str t.offset 0 == b'\r') _ _
                    (Rounded s) (λ _. w)
                    λ _.
                      Ends-elim B (get_or str t.offset 0 == b'"') _ _ (Rounded s) (λ _. (w, p))
                        λ _.
                          Ends-elim B (get_or str t.offset 0 == b'\\') _ _ (Rounded s)
                            (λ _.
                              Ends-bind B (next_char str t) _ (Advanced str t) (Rounded s)
                                (next_char-Advanced str B t p)
                                λ u a'.
                                  let w' = Went-trans s t u w (Advanced-Went t u a') in
                                  Ends-elim B u.eof_flag _ _ (Rounded s) (λ _. w')
                                    λ e'.
                                      let q = Advanced-IsOpen str t u a' e' in
                                      rw (read-ok str u.offset q.inside)
                                        (escaped m s u (unescape str (get_or str u.offset 0)) w' q))
                            λ _. appended m _ s t w p)

    -- what the loop does after a round
    looped :
        (f : ℕ) (m : Memory) (s : Lexer)
        → ((t : Lexer) → Went s t → IsOpen str t → Ends B (string_loop str f m t) (Went t))
        → (r : Round str) → Rounded s r
        → Ends B
            (elim r [
              | again t ↦ string_loop str f m t
              | returned t ↦ ok t
              | closed t ↦ do u ← next_char str t; ok (record u { token_type = TokenType.string })
            ])
            (Went s)
    looped f m s rest (again t) (w, o) =
        Ends-map B (string_loop str f m t) (Went t) (Went s) (rest t w o) λ u. Went-trans s t u w
    looped f m s rest (returned t) w = w
    looped f m s rest (closed t) (w, o) =
        Ends-bind B (next_char str t) _ (Advanced str t) (Went s) (next_char-Advanced str B t o)
          λ u a. Went-trans s t u w (Advanced-Went t u a)

    -- every round moves the offset
    pub string_loop-Went :
        (f : ℕ) (m : Memory) (s : Lexer)
        → IsOpen str s
        → length str - s.offset < f
        → Ends B (string_loop str f m s) (Went s)
    unfolding string_loop
    string_loop-Went zero m s o e = absurd (omega arith)
    string_loop-Went (suc f) m s o e =
        Ends-bind B (string_round str m s) _ (Rounded s) (Went s) (string_round-Rounded m s o)
          λ r k.
            looped f m s (λ t w p. string_loop-Went f m t p (omega (arith, e, w.0, p.inside))) r k
