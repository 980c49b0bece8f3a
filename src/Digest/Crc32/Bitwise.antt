-- ===== src/Digest/Crc32/Bitwise.antt =====
-- The table of src/rdx/rdx_guid.cpp takes the division by the polynomial eight bits at a time.
use Prim.Native.Nat.{bit_xor}
use rdx.Base.{
  ℕ, zero, suc, ◌+◌, ◌*◌, ◌/◌, ◌%◌, ◌<◌, ◌≡◌, refl, sym, ap, ◌∙◌, inl, inr, Bool, true, ◌&&◌, List,
  [], ◌∷◌, ◌++◌, ◌==◌, if◌then◌else◌, arith, Bytes, AllBytes, get_or, Bool-cases,
}
use rdx.Digest.Buffer.Absorbed.{joined}
use rdx.Digest.Crc32.{crctable, complement, crc_byte, crc_loop, crc32, crc_all}
use rdx.Digest.Crc32.Xor.{
  bit_xor_zero, bit_xor_swap, shifted, halved, halved-bit_xor, halved-byte, bit_xor_byte,
  bit_xor_even-div, bit_xor_even-mod, bit_xor_below,
}

-- One bit of the division by the polynomial, whose lowest coefficient is the highest bit.
unfoldable bit_step : ℕ → ℕ
bit_step x = if x % 2 == 1 then bit_xor (x / 2) 0xedb88320 else x / 2

unfoldable pub bit_steps : ℕ → ℕ → ℕ
unfolding bit_step
bit_steps zero x = x
bit_steps (suc n) x = bit_steps n (bit_step x)

-- the CRC-32 of bytes, bit by bit
abbrev pub divided : ℕ → Bytes → ℕ
divided crc [] = crc
divided crc (b ∷ bs) = divided (bit_steps 8 (bit_xor crc b)) bs

abbrev all_below : ℕ → (ℕ → Bool) → Bool
all_below zero p = true
all_below (suc n) p = p n && all_below n p

all_below_lem : (n : ℕ) (p : ℕ → Bool) (x : ℕ) → all_below n p ≡ true → x < n → p x ≡ true
all_below_lem zero p x h lt = absurd (omega (arith, lt))
all_below_lem (suc n) p x h lt = ground (arith, all_below_lem n p x)

eq_lem : (a b : ℕ) → (a == b) ≡ true → a ≡ b
eq_lem a b h = ground arith

table : all_below 256 (λ x. get_or crctable x 0 == bit_steps 8 x) ≡ true
unfolding bit_steps bit_step
table = refl

crctable_lem : (x : ℕ) → x < 256 → get_or crctable x 0 ≡ bit_steps 8 x
crctable_lem x h =
    eq_lem (get_or crctable x 0) (bit_steps 8 x)
      (all_below_lem 256 (λ x. get_or crctable x 0 == bit_steps 8 x) x table h)

bit_step-shifted : (t m : ℕ) → bit_step (bit_xor t (m * 2)) ≡ bit_xor (bit_step t) m
unfolding bit_step
bit_step-shifted t m =
    let half = bit_xor_even-div t m in
    let last = bit_xor_even-mod t m in
    elim (Bool-cases (t % 2 == 1)) [
      | inl odd ↦
          rw (last, half, odd)
            (bit_xor_swap (t / 2 + m + 0xedb88320) (t / 2) m 0xedb88320 (omega arith))
      | inr even ↦ rw (last, half, even) refl
    ]

bit_steps-shifted : (n t m : ℕ) → bit_steps n (bit_xor t (shifted n m)) ≡ bit_xor (bit_steps n t) m
unfolding bit_steps
bit_steps-shifted zero t m = refl
bit_steps-shifted (suc n) t m =
    ap (bit_steps n) (bit_step-shifted t (shifted n m)) ∙ bit_steps-shifted n (bit_step t) m

above_byte : (crc b : ℕ) → b < 256 → bit_xor crc b / 256 ≡ crc / 256
above_byte crc b h =
    let none : halved 8 b ≡ 0 = halved-byte b ∙ omega (arith, h) in
    sym (halved-byte (bit_xor crc b))
    ∙ halved-bit_xor 8 crc b
    ∙ ap (bit_xor (halved 8 crc)) none
    ∙ bit_xor_zero (halved 8 crc) (halved 8 crc) (omega arith)
    ∙ halved-byte crc

-- One look into the table is eight steps.
crc_byte-bit_steps : (crc b : ℕ) → b < 256 → crc_byte crc b ≡ bit_steps 8 (bit_xor crc b)
unfolding crc_byte
crc_byte-bit_steps crc b h =
    let y : ℕ = bit_xor crc b in
    ap (λ x. bit_xor x (crc / 256)) (crctable_lem (y % 256) (omega arith))
    ∙ ap (bit_xor (bit_steps 8 (y % 256))) (sym (above_byte crc b h))
    ∙ sym (bit_steps-shifted 8 (y % 256) (y / 256))
    ∙ ap (bit_steps 8) (bit_xor_byte y)

crc_loop-divided : (bs : Bytes) (crc : ℕ) → AllBytes bs → crc_loop crc bs ≡ divided crc bs
unfolding crc_loop
crc_loop-divided [] crc a = refl
crc_loop-divided (b ∷ bs) crc (h, a) =
    crc_loop-divided bs (crc_byte crc b) a ∙ ap (λ c. divided c bs) (crc_byte-bit_steps crc b h)

bit_step_below : (x : ℕ) → x < 4294967296 → bit_step x < 4294967296
unfolding bit_step
bit_step_below x h = elim (Bool-cases (x % 2 == 1)) [
  | inl odd ↦ rw odd (bit_xor_below 32 (x / 2) 0xedb88320 (omega (arith, h)) (omega arith))
  | inr even ↦ rw even (omega (arith, h))
]

bit_steps_below : (n x : ℕ) → x < 4294967296 → bit_steps n x < 4294967296
unfolding bit_steps
bit_steps_below zero x h = h
bit_steps_below (suc n) x h = bit_steps_below n (bit_step x) (bit_step_below x h)

crc_loop_below :
    (bs : Bytes) (crc : ℕ) → AllBytes bs → crc < 4294967296 → crc_loop crc bs < 4294967296
unfolding crc_loop
crc_loop_below [] crc a h = h
crc_loop_below (b ∷ bs) crc (k, a) h =
    let fed = bit_xor_below 32 crc b h (omega (arith, k)) in
    let stepped = bit_steps_below 8 (bit_xor crc b) fed in
    crc_loop_below bs (crc_byte crc b) a (omega (arith, stepped, crc_byte-bit_steps crc b k))

crc_loop-append :
    (xs ys : Bytes) (crc : ℕ) → crc_loop crc (xs ++ ys) ≡ crc_loop (crc_loop crc xs) ys
unfolding crc_loop
crc_loop-append [] ys crc = refl
crc_loop-append (x ∷ xs) ys crc = crc_loop-append xs ys (crc_byte crc x)

abbrev pub AllPieces : List Bytes → Type 0
AllPieces [] = Unit {0}
AllPieces (p ∷ ps) = AllBytes p × AllPieces ps

joined-AllBytes : (ps : List Bytes) → AllPieces ps → AllBytes (joined ps)
joined-AllBytes [] a = tt
joined-AllBytes (p ∷ ps) (a, rest) = append_bytes p (joined ps) a (joined-AllBytes ps rest)
  where
    append_bytes : (xs ys : Bytes) → AllBytes xs → AllBytes ys → AllBytes (xs ++ ys)
    append_bytes [] ys a c = c
    append_bytes (x ∷ xs) ys (h, a) c = (h, append_bytes xs ys a c)

crc_all-joined :
    (ps : List Bytes) (crc : ℕ)
    → AllPieces ps
    → crc < 4294967296
    → crc_all ps crc ≡ complement (crc_loop (complement crc) (joined ps))
unfolding crc_all crc32 crc_loop
crc_all-joined [] crc a h = omega (arith, h)
crc_all-joined (p ∷ ps) crc (a, rest) h =
    let l : ℕ = crc_loop (complement crc) p in
    let below : l < 4294967296 = crc_loop_below p (complement crc) a (omega arith) in
    let twice : complement (complement l) ≡ l = omega (arith, below) in
    crc_all-joined ps (complement l) rest (omega arith)
    ∙ ap (λ c. complement (crc_loop c (joined ps))) twice
    ∙ sym (ap complement (crc_loop-append p (joined ps) (complement crc)))

-- However bytes are cut to the pieces that `FeedBytes` is called with, from what `Init` sets on,
-- `Flush` gives the complement of what dividing the whole message bit by bit, from 32 ones on,
-- leaves.
pub crc_all-divided :
    (ps : List Bytes) → AllPieces ps → crc_all ps 0 ≡ complement (divided 0xffffffff (joined ps))
crc_all-divided ps a =
    crc_all-joined ps 0 a (omega arith)
    ∙ ap complement (crc_loop-divided (joined ps) 0xffffffff (joined-AllBytes ps a))
