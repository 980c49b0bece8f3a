-- ===== src/Compress/RangeCoder/Value.antt =====
-- The number that the bytes of the encoder stand for, those that are still pending included.
use native.Mathlib.Nat.{pow-suc, one-le-pow}
use rdx.Base.{ℕ, zero, suc, ◌+◌, ◌-◌, ◌*◌, ◌^◌, ◌<◌, ◌≤◌, ◌≡◌, refl, [], ◌∷◌, ◌++◌, arith, Bytes}
use rdx.Compress.RangeCoder.{RangeEnc, emit_pending}

-- big-endian, behind the digits read so far
unfoldable pub value : ℕ → Bytes → ℕ
value acc [] = acc
value acc (b ∷ bs) = value (acc * 256 + b) bs

pub value-append : (xs ys : Bytes) (acc : ℕ) → value acc (xs ++ ys) ≡ value (value acc xs) ys
unfolding value
value-append [] ys acc = refl
value-append (x ∷ xs) ys acc = value-append xs ys (acc * 256 + x)

-- All pending bytes are 0xff; with a carry they all become zero.
pub value-emit_calm : (n acc : ℕ) → value acc (emit_pending n 0xff 0) + 1 ≡ (acc + 1) * 256 ^ n
unfolding value emit_pending
value-emit_calm zero acc = omega arith
value-emit_calm (suc n) acc =
    rw (pow-suc 256 n) (omega (arith, value-emit_calm n (acc * 256 + 255)))

pub value-emit_carry : (n acc : ℕ) → value acc (emit_pending n 0xff 1) ≡ acc * 256 ^ n
unfolding value emit_pending
value-emit_carry zero acc = omega arith
value-emit_carry (suc n) acc =
    rw (pow-suc 256 n) (omega (arith, value-emit_carry n (acc * 256 + 0)))

-- The number of the bytes written so far, of the pending ones (`cache`, then `cache_size` - 1 bytes
-- 0xff), and of `low`, which has 32 bits more. The successor of the first two avoids subtraction.
unfoldable pub pending : RangeEnc → ℕ
pending s = (s.cache + 1) * 256 ^ (s.cache_size - 1)

unfoldable pub whole : ℕ → RangeEnc → ℕ
unfolding pending
whole acc s = (acc * 256 ^ s.cache_size + pending s - 1) * 4294967296 + s.low

-- What every operation of the encoder keeps. `room` says that no carry can pass the pending bytes.
pub record Fits (s : RangeEnc) : Type 0 where
  pub started : 1 ≤ s.cache_size
  pub byte : s.cache < 256
  pub low_lt : s.low + s.range ≤ 8589934592
  pub room : pending s * 4294967296 + s.low + s.range ≤ (256 ^ s.cache_size + 1) * 4294967296

-- The same for a state given by its parts, without subtraction.
pub one_le_pow : (n : ℕ) → 1 ≤ 256 ^ n
one_le_pow n = one-le-pow n 256 (omega arith)

module _ (low n range cache : ℕ) where
  abbrev pub parts : RangeEnc
  parts = record { low = low; cache_size = suc n; range = range; cache = cache }

  pub pending-parts : pending parts ≡ cache * 256 ^ n + 256 ^ n
  unfolding pending
  pending-parts = let less : suc n - 1 ≡ n = omega arith in rw less (omega arith)

  pub whole-parts :
      (acc : ℕ)
      → whole acc parts + 4294967296
        ≡ (256 * (acc * 256 ^ n) + cache * 256 ^ n + 256 ^ n) * 4294967296 + low
  unfolding whole
  whole-parts acc = rw (pow-suc 256 n) (omega (arith, pending-parts, one_le_pow n))
