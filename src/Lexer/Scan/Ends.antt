-- ===== src/Lexer/Scan/Ends.antt =====
-- Runs that end, and steps of the tokenizer that move its offset.
use native.Mathlib.Decide.{dec_lt}
use rdx.Base.{
  ℕ, zero, suc, ◌+◌, ◌<◌, ◌≤◌, ◌≡◌, refl, ◌⊎◌, inl, inr, Bool, true, false, [], ◌∷◌, arith, leb,
  get_or, length, Bytes,
}
use rdx.Base.Run.{Run, ok, out_of_bounds, out_of_fuel, ◌>>=◌}
use rdx.Lexer.{Lexer, read, check2, step_over, next_char}

-- The run ends with enough fuel; in a bad read only if `B`.
abbrev pub Ends {ℓ} : {A : Type ℓ} → Type 0 → Run A → (A → Type 0) → Type 0
Ends B (ok a) P = P a
Ends B out_of_bounds P = B
Ends B out_of_fuel P = ⊥

pub Ends-bind {ℓ μ} :
    {A : Type ℓ} {C : Type μ} (B : Type 0) (m : Run A) (f : A → Run C) (P : A → Type 0)
    (Q : C → Type 0)
    → Ends B m P
    → ((a : A) → P a → Ends B (f a) Q)
    → Ends B (m >>= f) Q
Ends-bind B (ok a) f P Q h k = k a h
Ends-bind B out_of_bounds f P Q h k = h
Ends-bind B out_of_fuel f P Q h k = elim h [ ]

pub Ends-elim {ℓ} :
    {A : Type ℓ} (B : Type 0) (b : Bool) (x y : Run A) (P : A → Type 0)
    → (b ≡ true → Ends B x P)
    → (b ≡ false → Ends B y P)
    → Ends B (elim b [ true ↦ x | false ↦ y ]) P
Ends-elim B true x y P t f = t refl
Ends-elim B false x y P t f = f refl

pub Ends-map {ℓ} :
    {A : Type ℓ} (B : Type 0) (m : Run A) (P Q : A → Type 0)
    → Ends B m P
    → ((a : A) → P a → Q a)
    → Ends B m Q
Ends-map B (ok a) P Q h k = k a h
Ends-map B out_of_bounds P Q h k = h
Ends-map B out_of_fuel P Q h k = elim h [ ]

pub read-ok : (xs : Bytes) (i : ℕ) → i < length xs → read xs i ≡ ok (get_or xs i 0)
read-ok [] i h = absurd (omega arith)
read-ok (x ∷ xs) zero h = refl
read-ok (x ∷ xs) (suc i) h = read-ok xs i (omega arith)

pub read-end : (xs : Bytes) (i : ℕ) → i ≡ length xs → read xs i ≡ out_of_bounds
read-end [] i e = refl
read-end (x ∷ xs) zero e = absurd (omega arith)
read-end (x ∷ xs) (suc i) e = read-end xs i (omega arith)

module _ (str : Bytes) where
  pub record IsOpen (s : Lexer) : Type 0 where
    pub inside : s.offset < length str
    pub more : s.eof_flag ≡ false

  -- From `s` on the offset has not gone back, and the flag tells whether it is at the end.
  pub record Moved (s t : Lexer) : Type 0 where
    pub onward : s.offset ≤ t.offset
    pub inside : t.offset ≤ length str
    pub flag : t.eof_flag ≡ leb (length str) t.offset

  pub record Advanced (s t : Lexer) : Type 0 where
    pub onward : s.offset < t.offset
    pub inside : t.offset ≤ length str
    pub flag : t.eof_flag ≡ leb (length str) t.offset
    pub same_text : t.return_str ≡ s.return_str
    pub same_error : t.error_code ≡ s.error_code
    pub same_type : t.token_type ≡ s.token_type

  pub step_over-Advanced : (c : ℕ) (s : Lexer) → IsOpen s → Advanced s (step_over str c s)
  unfolding step_over
  step_over-Advanced c s o = ground arith

  -- The rest of a loop after a step that has not reached the end.
  pub Advanced-IsOpen : (s t : Lexer) → Advanced s t → t.eof_flag ≡ false → IsOpen t
  Advanced-IsOpen s t a e = record { inside = ground arith; more = e }

  -- At the end of the array, or before it.
  pub record Placed (s : Lexer) : Type 0 where
    pub inside : s.offset ≤ length str
    pub flag : s.eof_flag ≡ leb (length str) s.offset

  pub Placed-cases : (s : Lexer) → Placed s → IsOpen s ⊎ (s.offset ≡ length str)
  Placed-cases s p = elim (dec_lt s.offset (length str)) [
    | yes lt ↦ inl (record { inside = lt; more = ground arith })
    | no ge ↦ inr (omega arith)
  ]

  pub Advanced-Placed : (s t : Lexer) → Advanced s t → Placed t
  Advanced-Placed s t a = record { inside = a.inside; flag = a.flag }

  pub check2-inside :
      (b1 b2 : ℕ) (s : Lexer) → check2 str b1 b2 s ≡ true → s.offset + 1 < length str
  unfolding check2
  check2-inside b1 b2 s h = ground arith

  module _ (B : Type 0) where
    pub next_char-Advanced : (s : Lexer) → IsOpen s → Ends B (next_char str s) (Advanced s)
    unfolding next_char
    next_char-Advanced s o = rw (read-ok str s.offset o.inside) (step_over-Advanced _ s o)

    pub next_char-Placed : (s : Lexer) → B → Placed s → Ends B (next_char str s) (Advanced s)
    unfolding next_char
    next_char-Placed s b p = elim (Placed-cases s p) [
      | inl o ↦ next_char-Advanced s o
      | inr e ↦ rw (read-end str s.offset e) b
    ]
