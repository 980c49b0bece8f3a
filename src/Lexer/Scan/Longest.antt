-- ===== src/Lexer/Scan/Longest.antt =====
-- The loops over a number and a name: what they take.
use rdx.Base.{
  ℕ, sym, zero, suc, ◌+◌, ◌-◌, ◌<◌, ◌≤◌, ◌≡◌, ◌∙◌, Bool, true, false, not, ◌&&◌, ◌||◌, arith, leb,
  ◌==◌, get_or, length, Bytes,
}
use mathlib.Core.Path.{subst}
use rdx.Lexer.{Lexer, check2, step_over, next_char, is_digit, is_name_char, is_name_start_char}
use rdx.Lexer.Scan.Ends.{
  Ends, Ends-bind, Ends-elim, Ends-map, read-ok, IsOpen, Advanced, Advanced-IsOpen,
  step_over-Advanced,
}
use rdx.Lexer.Scan.{number_loop, name_loop}

abbrev pub in_number : ℕ → Bool
in_number c = is_digit c || c == b'.' || c == b'f' || c == b'^'

name_char_on_line : (c : ℕ) → is_name_char c ≡ true → (c == b'\r') ≡ false
unfolding is_name_char is_name_start_char is_digit
name_char_on_line c h = ground arith

number_char_on_line : (c : ℕ) → in_number c ≡ true → (c == b'\r') ≡ false
unfolding is_digit
number_char_on_line c h = ground arith

not-in_number :
    (b c : ℕ)
    → (b == b'^' && c == b'-') ≡ false
    → (not (is_digit c) && not (c == b'.') && not (c == b'f') && not (c == b'^')) ≡ true
    → (in_number c || c == b'-' && b == b'^') ≡ false
unfolding is_digit
not-in_number b c h k = ground arith

module _ (str : Bytes) where
  -- A byte of a name, and a byte of a number: a minus sign is one after a caret only.
  abbrev pub name_at : ℕ → Bool
  name_at k = is_name_char (get_or str k 0)

  abbrev pub number_at : ℕ → Bool
  number_at k = in_number (get_or str k 0) || get_or str k 0 == b'-' && get_or str (k - 1) 0 == b'^'

  abbrev pub AllBetween : (ℕ → Bool) → ℕ → ℕ → Type 0
  AllBetween p i j = (k : ℕ) → i ≤ k → k < j → p k ≡ true

  -- The offset has moved over bytes that pass a test, to the end of the array or to the first that
  -- fails it; the first result is the offset of the last byte that was taken.
  pub record Took (p : ℕ → Bool) (s : Lexer) (r : ℕ × Lexer) : Type 0 where
    pub last : r.1.offset ≡ r.0 + 1
    pub onward : s.offset < r.1.offset
    pub inside : r.1.offset ≤ length str
    pub flag : r.1.eof_flag ≡ leb (length str) r.1.offset
    pub all : AllBetween p s.offset r.1.offset
    pub longest : r.1.offset < length str → p r.1.offset ≡ false
    pub same_error : r.1.error_code ≡ s.error_code

  step_over-offset :
      (c : ℕ) (s : Lexer) → (c == b'\r') ≡ false → (step_over str c s).offset ≡ s.offset + 1
  unfolding step_over
  step_over-offset c s h = ground arith

  AllBetween-cons :
      (p : ℕ → Bool) (i j : ℕ) → p i ≡ true → AllBetween p (i + 1) j → AllBetween p i j
  AllBetween-cons p i j h t k = grind arith

  AllBetween-one : (p : ℕ → Bool) (i : ℕ) → p i ≡ true → AllBetween p i (i + 1)
  AllBetween-one p i h k = grind arith

  -- one byte was taken, and the next fails the test
  Took-stop :
      (p : ℕ → Bool) (s t : Lexer)
      → p s.offset ≡ true
      → Advanced str s t × (t.offset ≡ s.offset + 1)
      → (t.offset < length str → p t.offset ≡ false)
      → Took p s (s.offset, t)
  Took-stop p s t h (a, one) stop = record {
    last = one;
    onward = a.onward;
    inside = a.inside;
    flag = a.flag;
    all = rw one (AllBetween-one p s.offset h);
    longest = stop;
    same_error = a.same_error;
  }

  -- one byte was taken, and the loop went on
  Took-step :
      (p : ℕ → Bool) (s t : Lexer) (r : ℕ × Lexer)
      → p s.offset ≡ true
      → Advanced str s t × (t.offset ≡ s.offset + 1)
      → Took p t r
      → Took p s r
  Took-step p s t r h (a, one) k = record {
    last = k.last;
    onward = omega (arith, a.onward, k.onward);
    inside = k.inside;
    flag = k.flag;
    all =
        AllBetween-cons p s.offset r.1.offset h (subst (λ i. AllBetween p i r.1.offset) one k.all);
    longest = k.longest;
    same_error = k.same_error ∙ a.same_error;
  }

  pub at_the_end :
      (t : Lexer)
      → t.eof_flag ≡ leb (length str) t.offset
      → t.eof_flag ≡ true
      → t.offset < length str
      → ⊥
  at_the_end t f q lt = ground arith

  number_at_on_line : (i : ℕ) → number_at i ≡ true → (get_or str i 0 == b'\r') ≡ false
  unfolding is_digit
  number_at_on_line i h = ground arith

  -- no caret with a minus sign behind it stands at an offset
  abbrev NotSplit : ℕ → Type 0
  NotSplit i = i + 1 < length str → (get_or str i 0 == b'^' && get_or str (i + 1) 0 == b'-') ≡ false

  -- the test by which the loop over a number ends
  abbrev stops : ℕ → Bool
  stops c = not (is_digit c) && not (c == b'.') && not (c == b'f') && not (c == b'^')

  stops-number_at :
      (i j : ℕ)
      → j ≡ i + 1
      → NotSplit i
      → stops (get_or str j 0) ≡ true
      → j < length str
      → number_at j ≡ false
  stops-number_at i j e n c lt =
      let split = n (omega (arith, e, lt)) in
      let here : (j - 1 ≡ i) = omega (arith, e) in
      rw here (
        not-in_number _ _
          (subst (λ k. (get_or str i 0 == b'^' && get_or str k 0 == b'-') ≡ false) (sym e) split) c)

  goes_on : (i : ℕ) → stops (get_or str i 0) ≡ false → number_at i ≡ true
  unfolding is_digit
  goes_on i h = ground arith

  -- a caret with a minus sign behind it
  abbrev Split : ℕ → Type 0
  Split i = (i + 1 < length str) × (number_at (i + 1) ≡ true) × (get_or str (i + 1) 0 ≡ b'-')

  check2-Split :
      (t : Lexer)
      → (get_or str t.offset 0 == b'^' && check2 str b'^' b'-' t) ≡ true
      → Split t.offset
  unfolding check2 is_digit
  check2-Split t v = ground arith

  check2-NotSplit :
      (t : Lexer)
      → (get_or str t.offset 0 == b'^' && check2 str b'^' b'-' t) ≡ false
      → NotSplit t.offset
  unfolding check2
  check2-NotSplit t v lt = ground arith

  Split-NotSplit : (i : ℕ) → get_or str i 0 ≡ b'-' → NotSplit i
  Split-NotSplit i h lt = ground arith

  Split-inside : (t u : Lexer) → Split t.offset → u.offset ≡ t.offset + 1 → u.offset < length str
  Split-inside t u h e = omega (arith, h.0)

  Split-open :
      (u : Lexer)
      → u.eof_flag ≡ leb (length str) u.offset
      → u.offset < length str
      → u.eof_flag ≡ false
  Split-open u f h = ground arith

  two :
      (s t u : Lexer) → t.offset ≡ s.offset + 1 → u.offset ≡ t.offset + 1 → s.offset + 2 ≡ u.offset
  two s t u a b = omega (arith, a, b)

  module _ (B : Type 0) where
    -- one step over a byte that does not end a line
    pub next_char_by_one :
        (s : Lexer)
        → IsOpen str s
        → (get_or str s.offset 0 == b'\r') ≡ false
        → Ends B (next_char str s) (λ t. Advanced str s t × (t.offset ≡ s.offset + 1))
    unfolding next_char
    next_char_by_one s o h =
        rw (read-ok str s.offset o.inside) (step_over-Advanced str _ s o, step_over-offset _ s h)

    pub name_loop-Took :
        (f : ℕ) (s : Lexer)
        → IsOpen str s
        → length str - s.offset < f
        → name_at s.offset ≡ true
        → Ends B (name_loop str f s.offset s) (Took name_at s)
    unfolding name_loop
    name_loop-Took zero s o e h = absurd (omega arith)
    name_loop-Took (suc f) s o e h =
        Ends-bind B (next_char str s) _ _ (Took name_at s)
          (next_char_by_one s o (name_char_on_line _ h))
          λ t a.
            Ends-elim B t.eof_flag _ _ (Took name_at s)
              (λ q. Took-stop name_at s t h a λ lt. absurd (at_the_end t a.0.flag q lt))
              λ q.
                let p = Advanced-IsOpen str s t a.0 q in
                rw (read-ok str t.offset p.inside) (
                  Ends-elim B (is_name_char (get_or str t.offset 0)) _ _ (Took name_at s)
                    (λ c. rw (sym a.1) (
                      Ends-map B (name_loop str f t.offset t) (Took name_at t) (Took name_at s)
                        (name_loop-Took f t p (omega (arith, a.1, p.inside)) c)
                        λ r. Took-step name_at s t r h a))
                    λ c. Took-stop name_at s t h a λ _. c)

    pub number_loop-Took :
        (f : ℕ) (s : Lexer)
        → IsOpen str s
        → length str - s.offset < f
        → number_at s.offset ≡ true
        → NotSplit s.offset
        → Ends B (number_loop str f s.offset s) (Took number_at s)
    unfolding number_loop
    number_loop-Took zero s o e h n = absurd (omega arith)
    number_loop-Took (suc f) s o e h n =
        Ends-bind B (next_char str s) _ _ (Took number_at s)
          (next_char_by_one s o (number_at_on_line _ h))
          λ t a.
            Ends-elim B t.eof_flag _ _ (Took number_at s)
              (λ q. Took-stop number_at s t h a λ lt. absurd (at_the_end t a.0.flag q lt))
              λ q.
                let p = Advanced-IsOpen str s t a.0 q in
                rw (read-ok str t.offset p.inside) (
                  Ends-elim B (stops (get_or str t.offset 0)) _ _ (Took number_at s)
                    (λ c. Took-stop number_at s t h a (stops-number_at s.offset t.offset a.1 n c))
                    λ c.
                      Ends-elim B (get_or str t.offset 0 == b'^' && check2 str b'^' b'-' t) _ _
                        (Took number_at s)
                        (λ v.
                          let next = check2-Split t v in
                          Ends-bind B (next_char str t) _ _ (Took number_at s)
                            (next_char_by_one t p (number_at_on_line _ (goes_on _ c)))
                            λ u a'.
                              let i = Split-inside t u next a'.1 in
                              let o' : IsOpen str u = record {
                                inside = i;
                                more = Split-open u a'.0.flag i;
                              } in
                              rw (read-ok str u.offset i, two s t u a.1 a'.1)
                                (Ends-map B (number_loop str f u.offset u) (Took number_at u)
                                  (Took number_at s)
                                  (number_loop-Took f u o' (omega (arith, a.1, a'.1, i))
                                    (rw a'.1 next.1) (Split-NotSplit u.offset (rw a'.1 next.2)))
                                  λ r k.
                                    Took-step number_at s t r h a
                                      (Took-step number_at t u r (goes_on _ c) a' k)))
                        λ v. rw (sym a.1) (
                          Ends-map B (number_loop str f t.offset t) (Took number_at t)
                            (Took number_at s)
                            (number_loop-Took f t p (omega (arith, a.1, p.inside)) (goes_on _ c)
                              (check2-NotSplit t v))
                            λ r. Took-step number_at s t r h a))
