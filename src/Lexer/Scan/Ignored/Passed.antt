-- ===== src/Lexer/Scan/Ignored/Passed.antt =====
-- The loops of src/rdxcompilerservices/rdxc_lexstate.cpp over white space and comments pass over nothing
-- else.
use mathlib.Core.Path.{subst}
use rdx.Base.{
  ℕ, zero, suc, ◌+◌, ◌<◌, ◌≤◌, ◌≡◌, ◌≢◌, ◌⊎◌, refl, sym, ap, ◌∙◌, inl, inr, Bool, true, false, not,
  ◌||◌, arith, ◌==◌, get_or, Bytes, Bool-cases,
}
use rdx.Base.Run.{Run, ok, ◌>>=◌}
use rdx.Lexer.{Lexer, check2, next_char}
use rdx.Lexer.Scan.{skip_space, skip_line, skip_block, line_comment, block_comment, fuel_for}
use rdx.Lexer.Scan.Longest.{AllBetween}
use rdx.Lexer.Scan.Ignored.{
  Gives, Gives-bind, Gives-elim, Gives-map, Gives-read, Gives-next, AllBetween-join, Crossed,
  AllBetween-Crossed, white, inline, mark, unclosed,
}

module _ (str : Bytes) where
  -- A loop has passed over offsets that pass a test, and has not returned only where it fails.
  pub record Passed (p : ℕ → Bool) (s : Lexer) (r : Bool × Lexer) : Type 0 where
    pub onward : s.offset ≤ r.1.offset
    pub all : AllBetween str p s.offset r.1.offset
    pub stop : r.0 ≡ false → p r.1.offset ≡ false

  Passed-here : (p : ℕ → Bool) (s : Lexer) → p s.offset ≡ false → Passed p s (false, s)
  Passed-here p s h = record {
    onward = omega arith;
    all = λ k a b. absurd (omega (arith, a, b));
    stop = λ _. h;
  }

  Crossed-onward : (s t : Lexer) → Crossed str s t → s.offset < t.offset
  Crossed-onward s t (inl e) = omega (arith, e)
  Crossed-onward s t (inr c) = omega (arith, c.0)

  Passed-end :
      (p : ℕ → Bool) (s t : Lexer)
      → Crossed str s t
      → AllBetween str p s.offset t.offset
      → Passed p s (true, t)
  Passed-end p s t c a = record {
    onward = omega (arith, Crossed-onward s t c);
    all = a;
    stop = λ h. cc;
  }

  Passed-step :
      (p : ℕ → Bool) (s t : Lexer) (r : Bool × Lexer)
      → Crossed str s t
      → AllBetween str p s.offset t.offset
      → Passed p t r
      → Passed p s r
  Passed-step p s t r c a k = record {
    onward = omega (arith, Crossed-onward s t c, k.onward);
    all = AllBetween-join str p s.offset t.offset r.1.offset a k.all;
    stop = k.stop;
  }

  -- `NextChar(); if(m_eofFlag) { … return; }` and the rest of a loop
  loop_step :
      (p : ℕ → Bool) (s : Lexer) (rest : Lexer → Run (Bool × Lexer)) (last : Lexer → Lexer)
      → ((t : Lexer) → (last t).offset ≡ t.offset)
      → p s.offset ≡ true
      → (get_or str s.offset 0 ≡ b'\r'
          → get_or str (s.offset + 1) 0 ≡ b'\n'
          → p (s.offset + 1) ≡ true)
      → ((t : Lexer) → Gives (rest t) (Passed p t))
      → Gives
          (next_char str s >>= λ t. elim t.eof_flag [ true ↦ ok (true, last t) | false ↦ rest t ])
          (Passed p s)
  loop_step p s rest last same here next k = Gives-next str s _ (Passed p s) λ t c.
      let crossed = AllBetween-Crossed str p s t here next c in
      Gives-elim t.eof_flag _ _ (Passed p s)
        (λ _. record {
          onward = omega (arith, Crossed-onward s t c, same t);
          all = subst (AllBetween str p s.offset) (sym (same t)) crossed;
          stop = λ h. cc;
        })
        λ _. Gives-map (rest t) (Passed p t) (Passed p s) (k t) λ r. Passed-step p s t r c crossed

  pub skip_space-Passed : (f : ℕ) (s : Lexer) → Gives (skip_space str f s) (Passed (white str) s)
  unfolding skip_space
  skip_space-Passed zero s = tt
  skip_space-Passed (suc f) s = Gives-read str s.offset _ (Passed (white str) s) (
      Gives-elim (white str s.offset) _ _ (Passed (white str) s)
        (λ w.
          loop_step (white str) s (skip_space str f) (λ t. t) (λ t. refl) w (λ r n. rw n refl)
            (skip_space-Passed f))
        (Passed-here (white str) s))

  no_return : (c : ℕ) → (c == b'\n' || c == b'\r') ≡ false → c ≡ b'\r' → ⊥
  no_return c h e = ground arith

  line_feed : (k : ℕ) → get_or str k 0 ≡ b'\n' → unclosed str k ≡ true
  line_feed k h = ground arith

  skip_line-Passed : (f : ℕ) (s : Lexer) → Gives (skip_line str f s) (Passed (inline str) s)
  unfolding skip_line
  skip_line-Passed zero s = tt
  skip_line-Passed (suc f) s = Gives-read str s.offset _ (Passed (inline str) s) (
      Gives-elim (get_or str s.offset 0 == b'\n' || get_or str s.offset 0 == b'\r') _ _
        (Passed (inline str) s) (λ e. Passed-here (inline str) s (ap not e))
        (λ e.
          loop_step (inline str) s (skip_line str f) (λ t. t) (λ t. refl) (ap not e)
            (λ r n. absurd (no_return _ e r)) (skip_line-Passed f)))

  skip_block-Passed : (f : ℕ) (s : Lexer) → Gives (skip_block str f s) (Passed (unclosed str) s)
  unfolding skip_block check2
  skip_block-Passed zero s = tt
  skip_block-Passed (suc f) s =
      Gives-elim (mark str b'*' b'/' s.offset) _ _ (Passed (unclosed str) s)
        (λ e. Passed-here (unclosed str) s (ap not e))
        (λ e.
          loop_step (unclosed str) s (skip_block str f) _ (λ t. refl) (ap not e)
            (λ r n. line_feed (s.offset + 1) n) (skip_block-Passed f))

  mark_bytes :
      (b1 b2 k : ℕ) → mark str b1 b2 k ≡ true → (get_or str k 0 ≡ b1) × (get_or str (k + 1) 0 ≡ b2)
  mark_bytes b1 b2 k h = ground arith

  over_one :
      (s t : Lexer) (c : ℕ)
      → get_or str s.offset 0 ≡ c
      → c ≢ b'\r'
      → Crossed str s t
      → t.offset ≡ s.offset + 1
  over_one s t c h n (inl e) = e
  over_one s t c h n (inr (e, r, f)) = absurd (n (sym h ∙ r))

  -- Two steps over a mark.
  two_over :
      (b1 b2 : ℕ) (s : Lexer) (f : Lexer → Run (Bool × Bool × Lexer))
      (Q : Bool × Bool × Lexer → Type 0)
      → mark str b1 b2 s.offset ≡ true
      → b1 ≢ b'\r'
      → b2 ≢ b'\r'
      → ((u : Lexer) → u.offset ≡ s.offset + 2 → Gives (f u) Q)
      → Gives (next_char str s >>= λ t. next_char str t >>= f) Q
  two_over b1 b2 s f Q h n1 n2 k =
      let (first, second) = mark_bytes b1 b2 s.offset h in
      Gives-next str s _ Q λ t c.
        let one = over_one s t b1 first n1 c in
        Gives-next str t _ Q λ u d.
          let two = over_one t u b2 (ap (λ i. get_or str i 0) one ∙ second) n2 d in
          k u (omega (arith, one, two))

  -- What the test for a comment to the end of the line comes to.
  abbrev pub Line : Lexer → Bool × Bool × Lexer → Type 0
  Line s r =
      (mark str b'/' b'/' s.offset ≡ true) × (r.1 ≡ true) × Passed (inline str) s (r.0, r.2)
      ⊎ (mark str b'/' b'/' s.offset ≡ false) × (r ≡ (false, false, s))

  pub line_comment-Line : (s : Lexer) → Gives (line_comment str s) (Line s)
  unfolding line_comment check2
  line_comment-Line s = elim (Bool-cases (mark str b'/' b'/' s.offset)) [
    | inl h ↦ rw h (
        Gives-bind (skip_line str (fuel_for str) s) _ (Passed (inline str) s) (Line s)
          (skip_line-Passed (fuel_for str) s) λ r k. inl (h, refl, k))
    | inr h ↦ rw h (inr (h, refl))
  ]

  -- A block comment has run into the end, or behind its first closing mark.
  abbrev pub Closed : Lexer → Bool × Bool × Lexer → Type 0
  Closed s r =
      (r.0 ≡ true)
        × (s.offset + 2 ≤ r.2.offset)
        × AllBetween str (unclosed str) (s.offset + 2) r.2.offset
      ⊎ (r.0 ≡ false)
        × (k : ℕ) × (s.offset + 2 ≤ k)
        × AllBetween str (unclosed str) (s.offset + 2) k
        × (mark str b'*' b'/' k ≡ true)
        × (r.2.offset ≡ k + 2)

  abbrev pub Block : Lexer → Bool × Bool × Lexer → Type 0
  Block s r =
      (mark str b'/' b'*' s.offset ≡ true) × (r.1 ≡ true) × Closed s r
      ⊎ (mark str b'/' b'*' s.offset ≡ false) × (r ≡ (false, false, s))

  pub not-false : (b : Bool) → not b ≡ false → b ≡ true
  not-false true h = refl
  not-false false h = cc

  pub block_comment-Block : (s : Lexer) → Gives (block_comment str s) (Block s)
  unfolding block_comment check2
  block_comment-Block s = elim (Bool-cases (mark str b'/' b'*' s.offset)) [
    | inr h ↦ rw h (inr (h, refl))
    | inl h ↦ rw h (
        two_over b'/' b'*' s _ (Block s) h (omega arith) (omega arith) λ u e.
          Gives-bind (skip_block str (fuel_for str) u) _ (Passed (unclosed str) u) (Block s)
            (skip_block-Passed (fuel_for str) u)
            λ r k.
              let all = subst (λ i. AllBetween str (unclosed str) i r.1.offset) e k.all in
              Gives-elim r.0 _ _ (Block s)
                (λ q. inl (h, refl, inl (refl, omega (arith, e, k.onward), all)))
                λ q.
                  let closing = not-false _ (k.stop q) in
                  two_over b'*' b'/' r.1 _ (Block s) closing (omega arith) (omega arith) λ w e'.
                    inl (
                      h,
                      refl,
                      inr (refl, r.1.offset, omega (arith, e, k.onward), all, closing, e'),
                    ))
  ]
