-- ===== src/Lexer/Scan/Ignored.antt =====
-- What the loop over white space and comments of src/rdxcompilerservices/rdxc_lexstate.cpp passes over.
pub mod Passed
pub mod Whole
use native.Mathlib.Decide.{dec_lt}
use rdx.Base.{
  ℕ, zero, suc, ◌+◌, ◌<◌, ◌≤◌, ◌≡◌, refl, sym, ap, ◌∙◌, ◌⊎◌, inl, inr, Bool, true, false, not, ◌&&◌,
  ◌||◌, [], ◌∷◌, arith, leb, ◌==◌, if◌then◌else◌, get_or, length, Bytes, ==_iff,
}
use rdx.Base.Run.{Run, ok, out_of_bounds, out_of_fuel, ◌>>=◌}
use rdx.Lexer.{Lexer, read, step_over, next_char}
use rdx.Lexer.Scan.Ends.{Ends, read-ok}
use rdx.Lexer.Scan.Longest.{AllBetween}

-- What holds of the result of a run, if it has one.
abbrev pub Gives {ℓ} : {A : Type ℓ} → Run A → (A → Type 0) → Type 0
Gives (ok a) P = P a
Gives out_of_bounds P = Unit {0}
Gives out_of_fuel P = Unit {0}

pub Gives-bind {ℓ μ} :
    {A : Type ℓ} {C : Type μ} (m : Run A) (f : A → Run C) (P : A → Type 0) (Q : C → Type 0)
    → Gives m P
    → ((a : A) → P a → Gives (f a) Q)
    → Gives (m >>= f) Q
Gives-bind (ok a) f P Q h k = k a h
Gives-bind out_of_bounds f P Q h k = tt
Gives-bind out_of_fuel f P Q h k = tt

pub Gives-elim {ℓ} :
    {A : Type ℓ} (b : Bool) (x y : Run A) (P : A → Type 0)
    → (b ≡ true → Gives x P)
    → (b ≡ false → Gives y P)
    → Gives (elim b [ true ↦ x | false ↦ y ]) P
Gives-elim true x y P t f = t refl
Gives-elim false x y P t f = f refl

pub Gives-map {ℓ} :
    {A : Type ℓ} (m : Run A) (P Q : A → Type 0) → Gives m P → ((a : A) → P a → Q a) → Gives m Q
Gives-map (ok a) P Q h k = k a h
Gives-map out_of_bounds P Q h k = tt
Gives-map out_of_fuel P Q h k = tt

-- What holds of every result holds of that of a run that ends.
pub Ends-Gives {ℓ} :
    {A : Type ℓ} (B : Type 0) (m : Run A) (P Q : A → Type 0)
    → Ends B m P
    → Gives m Q
    → Ends B m (λ a. P a × Q a)
Ends-Gives B (ok a) P Q h k = (h, k)
Ends-Gives B out_of_bounds P Q h k = h
Ends-Gives B out_of_fuel P Q h k = elim h [ ]

read_past : (xs : Bytes) (i : ℕ) → length xs ≤ i → read xs i ≡ out_of_bounds
read_past [] i h = refl
read_past (x ∷ xs) zero h = absurd (omega (arith, h))
read_past (x ∷ xs) (suc i) h = read_past xs i (omega (arith, h))

pub Gives-read {ℓ} :
    {A : Type ℓ} (xs : Bytes) (i : ℕ) (f : ℕ → Run A) (Q : A → Type 0)
    → Gives (f (get_or xs i 0)) Q
    → Gives (read xs i >>= f) Q
Gives-read xs i f Q h = elim (dec_lt i (length xs)) [
  | yes lt ↦ rw (read-ok xs i lt) h
  | no ge ↦ rw (read_past xs i (omega arith)) tt
]

module _ (str : Bytes) where
  pub AllBetween-join :
      (p : ℕ → Bool) (i k j : ℕ)
      → AllBetween str p i k
      → AllBetween str p k j
      → AllBetween str p i j
  AllBetween-join p i k j h g n a b = elim (dec_lt n k) [
    | yes lt ↦ h n a lt
    | no ge ↦ g n (omega arith) b
  ]

  -- `NextChar` passes over a byte, or over a line feed behind a carriage return too.
  abbrev pub Crossed : Lexer → Lexer → Type 0
  Crossed s t =
      (t.offset ≡ s.offset + 1)
      ⊎ (t.offset ≡ s.offset + 2)
        × (get_or str s.offset 0 ≡ b'\r')
        × (get_or str (s.offset + 1) 0 ≡ b'\n')

  step_over-Crossed : (s : Lexer) → Crossed s (step_over str (get_or str s.offset 0) s)
  unfolding step_over
  step_over-Crossed s = ground arith

  pub Gives-next {ℓ} :
      {A : Type ℓ} (s : Lexer) (f : Lexer → Run A) (Q : A → Type 0)
      → ((t : Lexer) → Crossed s t → Gives (f t) Q)
      → Gives (next_char str s >>= f) Q
  unfolding next_char
  Gives-next s f Q h = elim (dec_lt s.offset (length str)) [
    | yes lt ↦ rw (read-ok str s.offset lt) (h _ (step_over-Crossed s))
    | no ge ↦ rw (read_past str s.offset (omega arith)) tt
  ]

  pub AllBetween-Crossed :
      (p : ℕ → Bool) (s t : Lexer)
      → p s.offset ≡ true
      → (get_or str s.offset 0 ≡ b'\r'
          → get_or str (s.offset + 1) 0 ≡ b'\n'
          → p (s.offset + 1) ≡ true)
      → Crossed s t
      → AllBetween str p s.offset t.offset
  AllBetween-Crossed p s t h g (inl e) k a b =
      let here : k ≡ s.offset = omega (arith, a, b, e) in rw here h
  AllBetween-Crossed p s t h g (inr (e, r, n)) k a b = elim (dec_lt k (s.offset + 1)) [
    | yes lt ↦ let here : k ≡ s.offset = omega (arith, a, lt) in rw here h
    | no ge ↦ let next : k ≡ s.offset + 1 = omega (arith, a, b, e, ge) in rw next (g r n)
  ]

  -- white space, a byte that does not end a line, and two bytes at an offset
  abbrev pub white : ℕ → Bool
  white k = leb (get_or str k 0) 32

  abbrev pub inline : ℕ → Bool
  inline k = not (get_or str k 0 == b'\n' || get_or str k 0 == b'\r')

  abbrev pub mark : ℕ → ℕ → ℕ → Bool
  mark b1 b2 k =
      if leb (length str) k || leb (length str) (k + 1)
      then false
      else get_or str k 0 == b1 && get_or str (k + 1) 0 == b2

  abbrev pub unclosed : ℕ → Bool
  unclosed k = not (mark b'*' b'/' k)

  -- From one offset to another there is white space, comments to the end of a line and comments to
  -- their first closing mark; the last comment may have no end.
  pub data Ignored : ℕ → ℕ → Type 0 where
    nothing : (i : ℕ) → Ignored i i
    white_part : (i k j : ℕ) → i ≤ k → AllBetween str white i k → Ignored k j → Ignored i j
    line_part :
        (i k j : ℕ)
        → mark b'/' b'/' i ≡ true
        → i ≤ k
        → AllBetween str inline i k
        → inline k ≡ false
        → Ignored k j
        → Ignored i j
    block_part :
        (i k j : ℕ)
        → mark b'/' b'*' i ≡ true
        → i + 2 ≤ k
        → AllBetween str unclosed (i + 2) k
        → mark b'*' b'/' k ≡ true
        → Ignored (k + 2) j
        → Ignored i j
    last_line :
        (i j : ℕ) → mark b'/' b'/' i ≡ true → i ≤ j → AllBetween str inline i j → Ignored i j
    last_block :
        (i j : ℕ)
        → mark b'/' b'*' i ≡ true
        → i + 2 ≤ j
        → AllBetween str unclosed (i + 2) j
        → Ignored i j

  -- no white space and no comment at an offset
  pub record Starts (i : ℕ) : Type 0 where
    pub dark : white i ≡ false
    pub no_line : mark b'/' b'/' i ≡ false
    pub no_block : mark b'/' b'*' i ≡ false
