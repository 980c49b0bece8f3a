-- ===== src/Digest/Crc32/Xor.antt =====
-- Exclusive or by halves: what src/rdx/rdx_guid.cpp needs of `^`.
use Prim.Native.Nat.{digits, differ, bit_xor, bit_xor-bitwise}
use rdx.Base.{ℕ, zero, suc, ◌+◌, ◌*◌, ◌/◌, ◌%◌, ◌<◌, ◌≤◌, ◌≡◌, refl, sym, ap, ◌∙◌, arith}

abbrev xor_digits : ℕ → ℕ → ℕ → ℕ
xor_digits n a b = digits (λ b. b) differ n a b

-- Fuel for each unit of the first number is enough.
xor_digits-fuel : (n m a b : ℕ) → a ≤ n → a ≤ m → xor_digits n a b ≡ xor_digits m a b
xor_digits-fuel zero zero a b h k = refl
xor_digits-fuel zero (suc m) zero b h k = refl
xor_digits-fuel zero (suc m) (suc a) b h k = absurd (omega (arith, h))
xor_digits-fuel (suc n) zero zero b h k = refl
xor_digits-fuel (suc n) zero (suc a) b h k = absurd (omega (arith, k))
xor_digits-fuel (suc n) (suc m) zero b h k = refl
xor_digits-fuel (suc n) (suc m) (suc a) b h k =
    ap (λ x. x * 2 + differ (suc a % 2) (b % 2))
      (xor_digits-fuel n m (suc a / 2) (b / 2) (omega (arith, h)) (omega (arith, k)))

as_digits : (a b : ℕ) → bit_xor a b ≡ xor_digits a a b
as_digits a b = bit_xor-bitwise a b

halves_of_digits :
    (a b : ℕ) → xor_digits a a b ≡ xor_digits (a / 2) (a / 2) (b / 2) * 2 + differ (a % 2) (b % 2)
halves_of_digits zero b = omega arith
halves_of_digits (suc a) b =
    ap (λ x. x * 2 + differ (suc a % 2) (b % 2))
      (xor_digits-fuel a (suc a / 2) (suc a / 2) (b / 2) (omega arith) (omega arith))

-- The last digit, and the others.
pub bit_xor_halves : (a b : ℕ) → bit_xor a b ≡ bit_xor (a / 2) (b / 2) * 2 + differ (a % 2) (b % 2)
bit_xor_halves a b =
    as_digits a b
    ∙ halves_of_digits a b
    ∙ ap (λ x. x * 2 + differ (a % 2) (b % 2)) (sym (as_digits (a / 2) (b / 2)))

differ_small : (a b : ℕ) → a < 2 → b < 2 → differ a b < 2
differ_small zero b h k = k
differ_small (suc zero) zero h k = omega arith
differ_small (suc zero) (suc zero) h k = omega arith
differ_small (suc (suc a)) b h k = absurd (omega (arith, h))
differ_small (suc zero) (suc (suc b)) h k = absurd (omega (arith, k))

differ_swap : (a b c : ℕ) → a < 2 → b < 2 → c < 2 → differ (differ a b) c ≡ differ (differ a c) b
differ_swap (suc (suc a)) b c h k l = absurd (omega (arith, h))
differ_swap a (suc (suc b)) c h k l = absurd (omega (arith, k))
differ_swap a b (suc (suc c)) h k l = absurd (omega (arith, l))
differ_swap zero zero zero h k l = refl
differ_swap zero zero (suc zero) h k l = refl
differ_swap zero (suc zero) zero h k l = refl
differ_swap zero (suc zero) (suc zero) h k l = refl
differ_swap (suc zero) zero zero h k l = refl
differ_swap (suc zero) zero (suc zero) h k l = refl
differ_swap (suc zero) (suc zero) zero h k l = refl
differ_swap (suc zero) (suc zero) (suc zero) h k l = refl

pub bit_xor-div : (a b : ℕ) → bit_xor a b / 2 ≡ bit_xor (a / 2) (b / 2)
bit_xor-div a b =
    omega (arith, bit_xor_halves a b, differ_small (a % 2) (b % 2) (omega arith) (omega arith))

pub bit_xor-mod : (a b : ℕ) → bit_xor a b % 2 ≡ differ (a % 2) (b % 2)
bit_xor-mod a b =
    omega (arith, bit_xor_halves a b, differ_small (a % 2) (b % 2) (omega arith) (omega arith))

differ_zero : (a : ℕ) → differ a 0 ≡ a
differ_zero zero = refl
differ_zero (suc a) = refl

pub by_halves : (x y : ℕ) → x / 2 ≡ y / 2 → x % 2 ≡ y % 2 → x ≡ y
by_halves x y h k = omega (arith, h, k)

pub bit_xor_zero : (n a : ℕ) → a ≤ n → bit_xor a 0 ≡ a
bit_xor_zero n zero h = refl
bit_xor_zero zero (suc a) h = absurd (omega (arith, h))
bit_xor_zero (suc n) (suc a) h =
    by_halves (bit_xor (suc a) 0) (suc a)
      (bit_xor-div (suc a) 0 ∙ bit_xor_zero n (suc a / 2) (omega (arith, h)))
      (bit_xor-mod (suc a) 0 ∙ differ_zero (suc a % 2))

-- Two operands in the other order.
pub bit_xor_swap : (n a b c : ℕ) → a + b + c ≤ n → bit_xor (bit_xor a b) c ≡ bit_xor (bit_xor a c) b
bit_xor_swap zero zero zero zero h = refl
bit_xor_swap zero (suc a) b c h = absurd (omega (arith, h))
bit_xor_swap zero zero (suc b) c h = absurd (omega (arith, h))
bit_xor_swap zero zero zero (suc c) h = absurd (omega (arith, h))
bit_xor_swap (suc n) a b c h =
    let small : (x : ℕ) → x % 2 < 2 = λ x. omega arith in
    by_halves (bit_xor (bit_xor a b) c) (bit_xor (bit_xor a c) b)
      (bit_xor-div (bit_xor a b) c
        ∙ ap (λ x. bit_xor x (c / 2)) (bit_xor-div a b)
        ∙ bit_xor_swap n (a / 2) (b / 2) (c / 2) (omega (arith, h))
        ∙ sym (bit_xor-div (bit_xor a c) b ∙ ap (λ x. bit_xor x (b / 2)) (bit_xor-div a c)))
      (bit_xor-mod (bit_xor a b) c
        ∙ ap (λ x. differ x (c % 2)) (bit_xor-mod a b)
        ∙ differ_swap (a % 2) (b % 2) (c % 2) (small a) (small b) (small c)
        ∙ sym (bit_xor-mod (bit_xor a c) b ∙ ap (λ x. differ x (b % 2)) (bit_xor-mod a c)))

-- n more digits of 0 at the end
abbrev pub shifted : ℕ → ℕ → ℕ
shifted zero m = m
shifted (suc n) m = shifted n m * 2

-- without the last n digits
abbrev pub halved : ℕ → ℕ → ℕ
halved zero x = x
halved (suc n) x = halved n (x / 2)

pub halved-bit_xor : (n a b : ℕ) → halved n (bit_xor a b) ≡ bit_xor (halved n a) (halved n b)
halved-bit_xor zero a b = refl
halved-bit_xor (suc n) a b = ap (halved n) (bit_xor-div a b) ∙ halved-bit_xor n (a / 2) (b / 2)

pub bit_xor_below : (n a b : ℕ) → a < shifted n 1 → b < shifted n 1 → bit_xor a b < shifted n 1
bit_xor_below zero zero zero h k = h
bit_xor_below zero (suc a) b h k = absurd (omega (arith, h))
bit_xor_below zero zero (suc b) h k = absurd (omega (arith, k))
bit_xor_below (suc n) a b h k =
    let rest = bit_xor_below n (a / 2) (b / 2) (omega (arith, h)) (omega (arith, k)) in
    omega (arith, rest, bit_xor-div a b)

abbrev low : ℕ → ℕ → ℕ
low zero y = 0
low (suc n) y = low n (y / 2) * 2 + y % 2

abbrev high : ℕ → ℕ → ℕ
high zero y = y
high (suc n) y = high n (y / 2) * 2

low_high : (n y : ℕ) → bit_xor (low n y) (high n y) ≡ y
low_high zero y = as_digits 0 y
low_high (suc n) y =
    let below : low (suc n) y / 2 ≡ low n (y / 2) = omega arith in
    let above : high (suc n) y / 2 ≡ high n (y / 2) = omega arith in
    let last : low (suc n) y % 2 ≡ y % 2 = omega arith in
    let even : high (suc n) y % 2 ≡ 0 = omega arith in
    by_halves (bit_xor (low (suc n) y) (high (suc n) y)) y
      (bit_xor-div (low (suc n) y) (high (suc n) y) ∙ rw (below, above) (low_high n (y / 2)))
      (bit_xor-mod (low (suc n) y) (high (suc n) y) ∙ rw (last, even) (differ_zero (y % 2)))

-- The last eight digits and the others make up a number.
pub bit_xor_byte : (y : ℕ) → bit_xor (y % 256) (shifted 8 (y / 256)) ≡ y
bit_xor_byte y =
    let below : y % 256 ≡ low 8 y = omega arith in
    let above : shifted 8 (y / 256) ≡ high 8 y = omega arith in
    ap (λ x. bit_xor x (shifted 8 (y / 256))) below ∙ ap (bit_xor (low 8 y)) above ∙ low_high 8 y

pub halved-byte : (y : ℕ) → halved 8 y ≡ y / 256
halved-byte y = omega arith

-- An even operand takes no part in the last digit.
pub bit_xor_even-div : (t m : ℕ) → bit_xor t (m * 2) / 2 ≡ bit_xor (t / 2) m
bit_xor_even-div t m =
    let half : m * 2 / 2 ≡ m = omega arith in bit_xor-div t (m * 2) ∙ ap (bit_xor (t / 2)) half

pub bit_xor_even-mod : (t m : ℕ) → bit_xor t (m * 2) % 2 ≡ t % 2
bit_xor_even-mod t m =
    let even : m * 2 % 2 ≡ 0 = omega arith in
    bit_xor-mod t (m * 2) ∙ ap (differ (t % 2)) even ∙ differ_zero (t % 2)
