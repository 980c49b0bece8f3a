-- ===== src/Lexer/Scan/Blank.antt =====
-- White space and comments.
use rdx.Base.{
  ℕ, zero, suc, ◌-◌, ◌<◌, ◌≤◌, ◌≡◌, refl, ◌∙◌, ◌⊎◌, inl, inr, Bool, true, false, ◌||◌, arith, leb,
  ◌==◌, get_or, length, Bytes, Bool-cases,
}
use rdx.Base.Run.{Run, ok, ◌>>=◌}
use rdx.Lexer.{Lexer, check2, next_char}
use rdx.Lexer.Scan.Ends.{
  Ends, Ends-bind, Ends-elim, Ends-map, read-ok, IsOpen, Moved, Advanced, Advanced-IsOpen, Placed,
  Placed-cases, Advanced-Placed, next_char-Advanced, next_char-Placed,
}
use rdx.Lexer.Scan.{skip_space, skip_line, skip_block, line_comment, block_comment, fuel_for}

module _ (str : Bytes) where
  module _ (B : Type 0) where
    -- a state that is read from: inside of the array, or where a bad read is allowed
    abbrev pub Readable : Lexer → Type 0
    Readable s = IsOpen str s ⊎ (B × (s.offset ≡ length str))

    pub Placed-Readable : (s : Lexer) → B → Placed str s → Readable s
    Placed-Readable s b p = elim (Placed-cases str s p) [ inl o ↦ inl o | inr e ↦ inr (b, e) ]

    abbrev pub Skipped : Lexer → Bool × Lexer → Type 0
    Skipped s r = Moved str s r.1 × (r.1.return_str ≡ s.return_str) × (r.0 ≡ r.1.eof_flag)

    abbrev Far : Lexer → Bool × Lexer → Type 0
    Far s r = Skipped s r × (s.offset < r.1.offset)

    Far-step : (s t : Lexer) (r : Bool × Lexer) → Advanced str s t → Skipped t r → Far s r
    Far-step s t r a (m, text, e) = ground arith

    Far-end : (s t : Lexer) → Advanced str s t → t.eof_flag ≡ true → Far s (true, t)
    Far-end s t a e = ground arith

    Skipped-here : (s : Lexer) → IsOpen str s → Skipped s (false, s)
    Skipped-here s o = ground arith

    -- `NextChar(); if(m_eofFlag) return;` and the rest of a skipping loop
    skip_step :
        (s : Lexer) (rest : Lexer → Run (Bool × Lexer))
        → IsOpen str s
        → ((t : Lexer) → Advanced str s t → IsOpen str t → Ends B (rest t) (Skipped t))
        → Ends B
            (next_char str s >>= λ t. elim t.eof_flag [ true ↦ ok (true, t) | false ↦ rest t ])
            (Far s)
    skip_step s rest o k =
        Ends-bind B (next_char str s) _ (Advanced str s) (Far s) (next_char-Advanced str B s o)
          λ t a. Ends-elim B t.eof_flag _ _ (Far s) (Far-end s t a) λ e.
            Ends-map B (rest t) (Skipped t) (Far s) (k t a (Advanced-IsOpen str s t a e))
              λ r. Far-step s t r a

    pub skip_space-Skipped :
        (f : ℕ) (s : Lexer)
        → IsOpen str s
        → length str - s.offset < f
        → Ends B (skip_space str f s) (Skipped s)
    unfolding skip_space
    skip_space-Skipped zero s o e = absurd (omega arith)
    skip_space-Skipped (suc f) s o e = rw (read-ok str s.offset o.inside) (
        Ends-elim B (leb (get_or str s.offset 0) 32) _ _ (Skipped s)
          (λ _.
            Ends-map B _ (Far s) (Skipped s)
              (skip_step s (skip_space str f) o
                (λ t a o'. skip_space-Skipped f t o' (omega (arith, a.onward, o.inside))))
              (λ r far. far.0))
          (λ _. Skipped-here s o))

    skip_line-Skipped :
        (f : ℕ) (s : Lexer)
        → IsOpen str s
        → length str - s.offset < f
        → Ends B (skip_line str f s) (Skipped s)
    unfolding skip_line
    skip_line-Skipped zero s o e = absurd (omega arith)
    skip_line-Skipped (suc f) s o e = rw (read-ok str s.offset o.inside) (
        Ends-elim B (get_or str s.offset 0 == b'\n' || get_or str s.offset 0 == b'\r') _ _
          (Skipped s) (λ _. Skipped-here s o)
          (λ _.
            Ends-map B _ (Far s) (Skipped s)
              (skip_step s (skip_line str f) o
                (λ t a o'. skip_line-Skipped f t o' (omega (arith, a.onward, o.inside))))
              (λ r far. far.0)))

    -- What a block comment leaves: it ran into the end, or stands before its closing mark.
    record Block (s : Lexer) (r : Bool × Lexer) : Type 0 where
      onward : s.offset ≤ r.1.offset
      same_text : r.1.return_str ≡ s.return_str
      placed : Placed str r.1
      ended : r.0 ≡ true → r.1.eof_flag ≡ true

    Block-step : (s t : Lexer) (r : Bool × Lexer) → Advanced str s t → Block t r → Block s r
    Block-step s t r a k = record {
      onward = omega (arith, a.onward, k.onward);
      same_text = k.same_text ∙ a.same_text;
      placed = k.placed;
      ended = k.ended;
    }

    skip_block-Block :
        (f : ℕ) (s : Lexer)
        → B
        → Placed str s
        → length str - s.offset < f
        → Ends B (skip_block str f s) (Block s)
    unfolding skip_block
    skip_block-Block zero s b p e = absurd (omega arith)
    skip_block-Block (suc f) s b p e =
        Ends-elim B (check2 str b'*' b'/' s) _ _ (Block s)
          (λ h. record { onward = omega arith; same_text = refl; placed = p; ended = λ q. cc })
          λ h.
            Ends-bind B (next_char str s) _ (Advanced str s) (Block s)
              (next_char-Placed str B s b p)
              λ t a.
                Ends-elim B t.eof_flag _ _ (Block s)
                  (λ q. record {
                    onward = omega (arith, a.onward);
                    same_text = a.same_text;
                    placed = record { inside = a.inside; flag = a.flag };
                    ended = λ _. q;
                  })
                  λ q.
                    let o = Advanced-IsOpen str s t a q in
                    Ends-map B (skip_block str f t) (Block t) (Block s)
                      (skip_block-Block f t b (Advanced-Placed str s t a)
                        (omega (arith, a.onward, o.inside)))
                      λ r. Block-step s t r a

    -- What either kind of comment leaves; the rest of `LexSingle` is left out only at the end.
    pub record Comment (s : Lexer) (r : Bool × Bool × Lexer) : Type 0 where
      pub onward : s.offset ≤ r.2.offset
      pub moved : r.1 ≡ true → r.0 ≡ false → s.offset < r.2.offset
      pub same_text : r.2.return_str ≡ s.return_str
      pub placed : Placed str r.2
      pub ended : r.0 ≡ true → r.2.eof_flag ≡ true
      pub kept : r.0 ≡ false → Readable s → Readable r.2

    Comment-none : (s : Lexer) → Placed str s → Comment s (false, false, s)
    Comment-none s p = record {
      onward = omega arith;
      moved = λ h _. cc;
      same_text = refl;
      placed = p;
      ended = λ h. cc;
      kept = λ _ q. q;
    }

    pub IsOpen-Placed : (s : Lexer) → IsOpen str s → Placed str s
    IsOpen-Placed s o = ground arith

    -- At a comment mark the loop makes a step.
    skip_line-Far :
        (f : ℕ) (s : Lexer)
        → IsOpen str s
        → length str - s.offset < suc f
        → get_or str s.offset 0 ≡ b'/'
        → Ends B (skip_line str (suc f) s) (Far s)
    unfolding skip_line
    skip_line-Far f s o e mark =
        rw (read-ok str s.offset o.inside, mark)
          (skip_step s (skip_line str f) o
            (λ t a o'. skip_line-Skipped f t o' (omega (arith, a.onward, o.inside))))

    check2_first : (b1 b2 : ℕ) (s : Lexer) → check2 str b1 b2 s ≡ true → get_or str s.offset 0 ≡ b1
    unfolding check2
    check2_first b1 b2 s h = ground arith

    pub Skipped-IsOpen : (s : Lexer) (r : Bool × Lexer) → Skipped s r → r.0 ≡ false → IsOpen str r.1
    Skipped-IsOpen s r (m, text, e) q = ground arith

    Far-Comment : (s : Lexer) (r : Bool × Lexer) → Far s r → Comment s (r.0, true, r.1)
    Far-Comment s r (k, far) = record {
      onward = omega arith;
      moved = λ _ _. far;
      same_text = k.1;
      placed = record { inside = k.0.inside; flag = k.0.flag };
      ended = λ q. cc (k.2);
      kept = λ q _. inl (Skipped-IsOpen s r k q);
    }

    pub line_comment-Comment : (s : Lexer) → IsOpen str s → Ends B (line_comment str s) (Comment s)
    unfolding line_comment
    line_comment-Comment s o = elim (Bool-cases (check2 str b'/' b'/' s)) [
      | inr h ↦ rw h (Comment-none s (IsOpen-Placed s o))
      | inl h ↦ rw h (
          Ends-bind B (skip_line str (fuel_for str) s) _ (Far s) (Comment s)
            (skip_line-Far (length str) s o (omega arith) (check2_first b'/' b'/' s h))
            (Far-Comment s))
    ]

    -- Behind an opened block comment, `B` is at hand.
    pub block_comment-Comment :
        (s : Lexer)
        → Placed str s
        → (check2 str b'/' b'*' s ≡ true → B)
        → Ends B (block_comment str s) (Comment s)
    unfolding block_comment
    block_comment-Comment s p opened = elim (Bool-cases (check2 str b'/' b'*' s)) [
      | inr h ↦ rw h (Comment-none s p)
      | inl h ↦
          let b = opened h in
          rw h (
            Ends-bind B (next_char str s) _ (Advanced str s) (Comment s)
              (next_char-Placed str B s b p)
              λ t a.
                Ends-bind B (next_char str t) _ (Advanced str t) (Comment s)
                  (next_char-Placed str B t b (Advanced-Placed str s t a))
                  λ u a'.
                    Ends-bind B (skip_block str (fuel_for str) u) _ (Block u) (Comment s)
                      (skip_block-Block (fuel_for str) u b (Advanced-Placed str t u a')
                        (omega arith))
                      λ r k.
                        Ends-elim B r.0 _ _ (Comment s)
                          (λ q. record {
                            onward = omega (arith, a.onward, a'.onward, k.onward);
                            moved = λ _ _. omega (arith, a.onward, a'.onward, k.onward);
                            same_text = k.same_text ∙ a'.same_text ∙ a.same_text;
                            placed = k.placed;
                            ended = λ _. k.ended q;
                            kept = λ _ _. Placed-Readable r.1 b k.placed;
                          })
                          λ q.
                            Ends-bind B (next_char str r.1) _ (Advanced str r.1) (Comment s)
                              (next_char-Placed str B r.1 b k.placed)
                              λ v c.
                                Ends-bind B (next_char str v) _ (Advanced str v) (Comment s)
                                  (next_char-Placed str B v b (Advanced-Placed str r.1 v c))
                                  λ w c'. record {
                                    onward =
                                        omega (
                                          arith, a.onward, a'.onward, k.onward, c.onward, c'.onward,
                                        );
                                    moved = λ _ _.
                                        omega (
                                          arith, a.onward, a'.onward, k.onward, c.onward, c'.onward,
                                        );
                                    same_text =
                                        c'.same_text ∙ c.same_text ∙ k.same_text ∙ a'.same_text
                                        ∙ a.same_text;
                                    placed = Advanced-Placed str v w c';
                                    ended = λ x. cc;
                                    kept = λ _ _. Placed-Readable w b (Advanced-Placed str v w c');
                                  })
    ]
