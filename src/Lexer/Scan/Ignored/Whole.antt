-- ===== src/Lexer/Scan/Ignored/Whole.antt =====
-- The loop of `LexSingle` of src/rdxcompilerservices/rdxc_lexstate.cpp over white space and comments, as
-- a whole.
use mathlib.Core.Path.{subst}
use rdx.Base.{ℕ, zero, suc, ◌≡◌, refl, sym, inl, inr, Bool, true, false, ◌||◌, Bytes, Bool-cases}
use rdx.Base.Run.{Run, ok, ◌>>=◌}
use rdx.Lexer.{Lexer}
use rdx.Lexer.Scan.{skip_space, line_comment, block_comment, skip_blank, fuel_for}
use rdx.Lexer.Scan.Ignored.{
  Gives, Gives-bind, Gives-elim, Gives-map, white, mark, Ignored, nothing, white_part, line_part,
  block_part, last_line, last_block, Starts,
}
use rdx.Lexer.Scan.Ignored.Passed.{
  Passed, Line, Block, skip_space-Passed, line_comment-Line, block_comment-Block,
}

module _ (str : Bytes) where
  -- What lies between is ignored, and where the loop is left there is nothing more to ignore.
  pub record Blank (s : Lexer) (r : Bool × Lexer) : Type 0 where
    pub ignored : Ignored str s.offset r.1.offset
    pub starts : r.0 ≡ false → Starts str r.1.offset

  or_true : (a b : Bool) → b ≡ true → (a || b) ≡ true
  or_true true b h = refl
  or_true false b h = h

  -- what follows the test for a block comment, and the test for a comment to the end of the line
  abbrev block_rest : Bool → (Lexer → Run (Bool × Lexer)) → Bool × Bool × Lexer → Run (Bool × Lexer)
  block_rest moved next b = elim b.0 [
    | true ↦ ok (true, b.2)
    | false ↦ elim (moved || b.1) [ true ↦ next b.2 | false ↦ ok (false, b.2) ]
  ]

  abbrev line_rest : (Lexer → Run (Bool × Lexer)) → Bool × Bool × Lexer → Run (Bool × Lexer)
  line_rest next l = elim l.0 [
    | true ↦ ok (true, l.2)
    | false ↦ block_comment str l.2 >>= block_rest l.1 next
  ]

  -- `if(Check2('/', '*'))` and what follows, where what lies in front is ignored
  second_stage :
      (s t : Lexer) (moved : Bool) (next : Lexer → Run (Bool × Lexer))
      → ((j : ℕ) → Ignored str t.offset j → Ignored str s.offset j)
      → (moved ≡ false → (white str t.offset ≡ false) × (mark str b'/' b'/' t.offset ≡ false))
      → ((u : Lexer) → Gives (next u) (Blank u))
      → Gives (block_comment str t >>= block_rest moved next) (Blank s)
  second_stage s t moved next pre dark k =
      Gives-bind (block_comment str t) _ (Block str t) (Blank s) (block_comment-Block str t) after
    where
      go_on :
          (u : Lexer)
          → ((j : ℕ) → Ignored str u.offset j → Ignored str s.offset j)
          → Gives (next u) (Blank s)
      go_on u p =
          Gives-map (next u) (Blank u) (Blank s) (k u)
            λ r b. record { ignored = p r.1.offset b.ignored; starts = b.starts }

      after : (b : Bool × Bool × Lexer) → Block str t b → Gives (block_rest moved next b) (Blank s)
      after b (inl (h, entered, inl (e, onward, all))) = rw e (record {
        ignored = pre b.2.offset (last_block t.offset b.2.offset h onward all);
        starts = λ q. cc;
      })
      after b (inl (h, entered, inr (e, m, onward, all, closing, behind))) =
          let more : (moved || b.1) ≡ true = or_true moved b.1 entered in
          Gives-elim b.0 _ _ (Blank s) (λ q. cc)
            λ _.
              Gives-elim (moved || b.1) _ _ (Blank s)
                (λ _. go_on b.2 λ j i. pre j (
                  block_part t.offset m j h onward all closing
                    (subst (λ n. Ignored str n j) behind i)))
                λ q. cc
      after b (inr (h, same)) =
          subst (λ x. Gives (block_rest moved next x) (Blank s)) (sym same)
            (elim (Bool-cases moved) [
              | inl e ↦ rw e (go_on t pre)
              | inr e ↦ rw e (record {
                ignored = pre t.offset (nothing t.offset);
                starts = λ _. record { dark = (dark e).0; no_line = (dark e).1; no_block = h };
              })
            ])

  -- the same for a comment to the end of the line
  first_stage :
      (s t : Lexer) (next : Lexer → Run (Bool × Lexer))
      → ((u : Lexer) → Gives (next u) (Blank u))
      → white str t.offset ≡ false
      → ((j : ℕ) → Ignored str t.offset j → Ignored str s.offset j)
      → (l : Bool × Bool × Lexer) → Line str t l
      → Gives (line_rest next l) (Blank s)
  first_stage s t next k0 dark pre l (inl (h, entered, k)) =
      Gives-elim l.0 _ _ (Blank s)
        (λ e. record {
          ignored = pre l.2.offset (last_line t.offset l.2.offset h k.onward k.all);
          starts = λ q. cc;
        })
        λ e.
          second_stage s l.2 l.1 next
            (λ j i. pre j (line_part t.offset l.2.offset j h k.onward k.all (k.stop e) i)) (λ q. cc)
            k0
  first_stage s t next k0 dark pre l (inr (h, same)) =
      subst (λ x. Gives (line_rest next x) (Blank s)) (sym same)
        (second_stage s t false next pre (λ q. (dark, h)) k0)

  pub skip_blank-Blank : (f : ℕ) (s : Lexer) → Gives (skip_blank str f s) (Blank s)
  unfolding skip_blank
  skip_blank-Blank zero s = tt
  skip_blank-Blank (suc f) s =
      Gives-bind (skip_space str (fuel_for str) s) _ (Passed str (white str) s) (Blank s)
        (skip_space-Passed str (fuel_for str) s)
        λ r k.
          Gives-elim r.0 _ _ (Blank s)
            (λ e. record {
              ignored = white_part s.offset r.1.offset r.1.offset k.onward k.all (nothing _);
              starts = λ q. cc;
            })
            λ e.
              Gives-bind (line_comment str r.1) _ (Line str r.1) (Blank s)
                (line_comment-Line str r.1)
                (first_stage s r.1 (skip_blank str f) (skip_blank-Blank f) (k.stop e)
                  (λ j. white_part s.offset r.1.offset j k.onward k.all))
