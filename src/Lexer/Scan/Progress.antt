-- ===== src/Lexer/Scan/Progress.antt =====
-- `LexSingle` as a whole: it ends, and what each call takes.
use rdx.Base.{
  ℕ, ◌≢◌, zero, suc, ◌-◌, ◌<◌, ◌≤◌, ◌≡◌, refl, inl, inr, Bool, true, false, ◌||◌, arith, leb,
  length, Bytes, Bool-cases,
}
use mathlib.Core.Path.{subst}
use rdx.Base.Run.{Run, out_of_fuel}
use rdx.Lexer.{Lexer, Memory, check2}
use rdx.Lexer.Scan.Ends.{Ends, Ends-bind, Ends-elim, Ends-map, read-end, IsOpen}
use rdx.Lexer.Scan.Blank.{
  Readable, Comment, Skipped, Skipped-IsOpen, skip_space-Skipped, line_comment-Comment,
  block_comment-Comment,
}
use rdx.Lexer.Scan.{
  skip_space, line_comment, block_comment, skip_blank, fuel_for, lex_token, lex_single,
}
use rdx.Lexer.Scan.Ignored.{Ends-Gives, Ignored, nothing, Starts}
use rdx.Lexer.Scan.Ignored.Whole.{Blank, skip_blank-Blank}
use rdx.Lexer.Scan.Lexed.{Lexed, lex_token-Lexed}

module _ (str : Bytes) where
  -- `LexSingle` found the end of the array behind white space and comments, or a token there.
  pub data Single (s t : Lexer) : Type 0 where
    at_end : t.eof_flag ≡ true → s.offset ≤ t.offset → Ignored str s.offset t.offset → Single s t
    token :
        (u : Lexer)
        → s.offset ≤ u.offset
        → Ignored str s.offset u.offset
        → Starts str u.offset
        → Lexed str u t
        → Single s t

  module _ (B : Type 0) where
    -- What the loop over white space and comments leaves.
    record Blanked (s : Lexer) (r : Bool × Lexer) : Type 0 where
      onward : s.offset ≤ r.1.offset
      inside : r.1.offset ≤ length str
      ended : r.0 ≡ true → r.1.eof_flag ≡ true
      kept : r.0 ≡ false → Readable str B r.1

    -- the offsets at which a block comment is opened
    abbrev pub Opened : Type 0
    Opened = (s : Lexer) → check2 str b'/' b'*' s ≡ true → B

    Blanked-after :
        (s t : Lexer) (r : Bool × Lexer) → s.offset ≤ t.offset → Blanked t r → Blanked s r
    Blanked-after s t r lt k = record {
      onward = omega (arith, lt, k.onward);
      inside = k.inside;
      ended = k.ended;
      kept = k.kept;
    }

    Comments-moved :
        (s : Lexer) (l b : Bool × Bool × Lexer)
        → Comment str B s l
        → Comment str B l.2 b
        → (l.1 || b.1) ≡ true
        → l.0 ≡ false
        → b.0 ≡ false
        → s.offset < b.2.offset
    Comments-moved s l b c d more h h' = elim (Bool-cases l.1) [
      | inl e ↦ omega (arith, c.moved e h, d.onward)
      | inr e ↦ omega (arith, c.onward, d.moved (cc (e, more)) h')
    ]

    skip_blank-Blanked :
        (f : ℕ) (s : Lexer)
        → Opened
        → Readable str B s
        → length str - s.offset < f
        → Ends B (skip_blank str f s) (Blanked s)
    unfolding skip_blank skip_space
    skip_blank-Blanked zero s opened o e = absurd (omega arith)
    skip_blank-Blanked (suc f) s opened (inr (b, q)) e = rw (read-end str s.offset q) b
    skip_blank-Blanked (suc f) s opened (inl o) e =
        Ends-bind B (skip_space str (fuel_for str) s) _ (Skipped str B s) (Blanked s)
          (skip_space-Skipped str B (fuel_for str) s o (omega arith))
          λ r k.
            Ends-elim B r.0 _ _ (Blanked s)
              (λ q. record {
                onward = k.0.onward;
                inside = k.0.inside;
                ended = λ _. cc (k.2);
                kept = λ h. cc;
              })
              λ q.
                let o1 = Skipped-IsOpen str B s r k q in
                Ends-bind B (line_comment str r.1) _ (Comment str B r.1) (Blanked s)
                  (line_comment-Comment str B r.1 o1)
                  λ l c.
                    Ends-elim B l.0 _ _ (Blanked s)
                      (λ h. record {
                        onward = omega (arith, k.0.onward, c.onward);
                        inside = c.placed.inside;
                        ended = λ _. c.ended h;
                        kept = λ h. cc;
                      })
                      λ h.
                        Ends-bind B (block_comment str l.2) _ (Comment str B l.2) (Blanked s)
                          (block_comment-Comment str B l.2 c.placed (opened l.2))
                          λ b d.
                            Ends-elim B b.0 _ _ (Blanked s)
                              (λ h'. record {
                                onward = omega (arith, k.0.onward, c.onward, d.onward);
                                inside = d.placed.inside;
                                ended = λ _. d.ended h';
                                kept = λ h. cc;
                              })
                              λ h'.
                                let read = d.kept h' (c.kept h (inl o1)) in
                                Ends-elim B (l.1 || b.1) _ _ (Blanked s)
                                  (λ more.
                                    Ends-map B (skip_blank str f b.2) (Blanked b.2) (Blanked s)
                                      (skip_blank-Blanked f b.2 opened read (
                                        omega (
                                          arith,
                                          e,
                                          o.inside,
                                          k.0.onward,
                                          Comments-moved r.1 l b c d more h h',
                                        )))
                                      λ r'.
                                        Blanked-after s b.2 r'
                                          (omega (arith, k.0.onward, c.onward, d.onward)))
                                  λ _. record {
                                    onward = omega (arith, k.0.onward, c.onward, d.onward);
                                    inside = d.placed.inside;
                                    ended = λ h. cc;
                                    kept = λ _. read;
                                  }

    pub lex_single-Single :
        (m : Memory) (s : Lexer)
        → s.eof_flag ≡ false
        → Opened
        → Ends B (lex_single str m s) (Single s)
    unfolding lex_single
    lex_single-Single m s more opened = elim (Bool-cases (leb (length str) s.offset)) [
      | inl e ↦ rw e (at_end refl (omega arith) (nothing s.offset))
      | inr e ↦ rw e (
          let o : IsOpen str s = record { inside = ground arith; more = more } in
          let skipped : Run (Bool × Lexer) = skip_blank str (fuel_for str) s in
          Ends-bind B skipped _ (λ r. Blanked s r × Blank str s r) (Single s)
            (Ends-Gives B skipped (Blanked s) (Blank str s)
              (skip_blank-Blanked (fuel_for str) s opened (inl o) (omega arith))
              (skip_blank-Blank str (fuel_for str) s))
            λ r k.
              Ends-elim B r.0 _ _ (Single s) (λ q. at_end (k.0.ended q) k.0.onward k.1.ignored)
                λ q.
                  Ends-map B (lex_token str m r.1) (Lexed str r.1) (Single s)
                    (lex_token-Lexed str B m r.1 (k.0.kept q))
                    λ t. token r.1 k.0.onward k.1.ignored (k.1.starts q))
    ]

-- From a state whose flag is not set, `LexSingle` does not run out of fuel: one round more than
-- there are bytes is enough for each of its loops.
pub lex_single_ends :
    (str : Bytes) (m : Memory) (s : Lexer) → s.eof_flag ≡ false → lex_single str m s ≢ out_of_fuel
lex_single_ends str m s more run =
    subst (λ r. Ends (Unit {0}) r (Single str s)) run
      (lex_single-Single str (Unit {0}) m s more (λ t opened. tt))
