-- ===== src/Digest/Murmur3.antt =====
-- src/rdx/rdx_murmur3.cpp: the hashes of 32 and of 128 bits.
pub mod Pieces
use Prim.Native.Nat.{bit_or, bit_xor}
use rdx.Base.{
  ℕ, zero, suc, ◌+◌, ◌-◌, ◌*◌, ◌/◌, ◌%◌, ◌^◌, Bool, true, false, List, [], ◌∷◌, ltb, ◌==◌,
  if◌then◌else◌, Bytes, get_or, replicate, u32,
}
use rdx.Digest.Buffer.{Hash, feed_bytes}

-- `RotL32`, `GetBlock32` and `FMix32`
unfoldable pub rot_l32 : ℕ → ℕ → ℕ
rot_l32 x r = bit_or (u32 (x * 2 ^ r)) (x / 2 ^ (32 - r))

unfoldable pub get_block32 : Bytes → ℕ → ℕ
get_block32 bytes p =
    bit_or
      (bit_or (bit_or (get_or bytes p 0) (get_or bytes (p + 1) 0 * 256))
        (get_or bytes (p + 2) 0 * 65536))
      (get_or bytes (p + 3) 0 * 16777216)

unfoldable pub f_mix32 : ℕ → ℕ
f_mix32 h0 =
    let h1 = bit_xor h0 (h0 / 65536) in
    let h2 = u32 (h1 * 0x85ebca6b) in
    let h3 = bit_xor h2 (h2 / 8192) in let h4 = u32 (h3 * 0xc2b2ae35) in bit_xor h4 (h4 / 65536)

-- `k *= c; k = RotL32(k, r); k *= d;`
unfoldable pub scrambled : ℕ → ℕ → ℕ → ℕ → ℕ
unfolding rot_l32
scrambled k c r d = u32 (rot_l32 (u32 (k * c)) r * d)

-- The cases of a `switch` that fall through: the bytes below the position, each with its shift.
unfoldable pub gathered : ℕ → Bytes → List (ℕ × ℕ) → ℕ → ℕ
gathered pos backlog [] k = k
gathered pos backlog ((i, shift) ∷ cases) k =
    gathered pos backlog cases (if ltb i pos then bit_xor k (get_or backlog i 0 * 2 ^ shift) else k)

-- `rdxCMurmur3Hash32`
unfoldable pub mix32 : ℕ → Bytes → ℕ
unfolding get_block32 scrambled rot_l32
mix32 h1 backlog =
    let k1 = scrambled (get_block32 backlog 0) 0xcc9e2d51 15 0x1b873593 in
    u32 (rot_l32 (bit_xor h1 k1) 13 * 5 + 0xe6546b64)

-- `Init`, which leaves the bytes of the backlog as they are; only written ones are read.
abbrev pub init32 : Hash ℕ
init32 = record { words = 0; len = 0; backlog = replicate 4 0; backlog_pos = 0 }

abbrev pub feed_bytes32 : Bytes → Hash ℕ → Hash ℕ
feed_bytes32 = feed_bytes 4 mix32

-- `Flush` of the words of the state
unfoldable pub finish32 : ℕ → Bytes → ℕ → ℕ → ℕ
unfolding gathered scrambled f_mix32
finish32 pos backlog h1 len =
    let k1 = gathered pos backlog ((2, 16) ∷ (1, 8) ∷ (0, 0) ∷ []) 0 in
    let h1' = if ltb 0 pos then bit_xor h1 (scrambled k1 0xcc9e2d51 15 0x1b873593) else h1 in
    f_mix32 (bit_xor h1' (u32 (len + pos)))

unfoldable pub flush32 : Hash ℕ → ℕ
flush32 v = finish32 v.backlog_pos v.backlog v.words v.len

-- `rdxCMurmur3Hash128`
pub record Words : Type 0 where
  pub h1 : ℕ
  pub h2 : ℕ
  pub h3 : ℕ
  pub h4 : ℕ

abbrev pub c1 : ℕ
c1 = 0x239b961b

abbrev pub c2 : ℕ
c2 = 0xab0e9789

abbrev pub c3 : ℕ
c3 = 0x38b34ae5

abbrev pub c4 : ℕ
c4 = 0xa1e38b93

-- `h = RotL32(h ^ k, r); h += g; h = h*5 + c;`
unfoldable pub stirred : ℕ → ℕ → ℕ → ℕ → ℕ → ℕ
unfolding rot_l32
stirred h k r g c = u32 (u32 (rot_l32 (bit_xor h k) r + g) * 5 + c)

unfoldable pub mix128 : Words → Bytes → Words
unfolding get_block32 scrambled stirred
mix128 w backlog =
    let k1 = scrambled (get_block32 backlog 0) c1 15 c2 in
    let k2 = scrambled (get_block32 backlog 4) c2 16 c3 in
    let k3 = scrambled (get_block32 backlog 8) c3 17 c4 in
    let k4 = scrambled (get_block32 backlog 12) c4 18 c1 in
    let first = stirred w.h1 k1 19 w.h2 0x561ccd1b in
    record {
      h1 = first;
      h2 = stirred w.h2 k2 17 w.h3 0x0bcaa747;
      h3 = stirred w.h3 k3 15 w.h4 0x96cd1c35;
      h4 = stirred w.h4 k4 13 first 0x32ac3b17;
    }

abbrev pub init128 : Hash Words
init128 = record {
  words = record { h1 = 0; h2 = 0; h3 = 0; h4 = 0 };
  len = 0;
  backlog = replicate 16 0;
  backlog_pos = 0;
}

abbrev pub feed_bytes128 : Bytes → Hash Words → Hash Words
feed_bytes128 = feed_bytes 16 mix128

-- the `switch` over the tail
unfoldable pub tail128 : ℕ → Bytes → Words → Words
unfolding gathered scrambled
tail128 pos backlog w =
    let k4 = gathered pos backlog ((14, 16) ∷ (13, 8) ∷ (12, 0) ∷ []) 0 in
    let k3 = gathered pos backlog ((11, 24) ∷ (10, 16) ∷ (9, 8) ∷ (8, 0) ∷ []) 0 in
    let k2 = gathered pos backlog ((7, 24) ∷ (6, 16) ∷ (5, 8) ∷ (4, 0) ∷ []) 0 in
    let k1 = gathered pos backlog ((3, 24) ∷ (2, 16) ∷ (1, 8) ∷ (0, 0) ∷ []) 0 in
    record {
      h1 = if ltb 0 pos then bit_xor w.h1 (scrambled k1 c1 15 c2) else w.h1;
      h2 = if ltb 4 pos then bit_xor w.h2 (scrambled k2 c2 16 c3) else w.h2;
      h3 = if ltb 8 pos then bit_xor w.h3 (scrambled k3 c3 17 c4) else w.h3;
      h4 = if ltb 12 pos then bit_xor w.h4 (scrambled k4 c4 18 c1) else w.h4;
    }

-- `h1 += h2; h1 += h3; h1 += h4; h2 += h1; h3 += h1; h4 += h1;`
abbrev pub summed : Words → Words
summed w =
    let sum = u32 (u32 (u32 (w.h1 + w.h2) + w.h3) + w.h4) in
    record { h1 = sum; h2 = u32 (w.h2 + sum); h3 = u32 (w.h3 + sum); h4 = u32 (w.h4 + sum) }

abbrev pub each_word : (ℕ → ℕ) → Words → Words
each_word f w = record { h1 = f w.h1; h2 = f w.h2; h3 = f w.h3; h4 = f w.h4 }

-- `Flush` behind the tail: `outHigh` and `outLow`
unfoldable pub close128 : ℕ → Words → ℕ × ℕ
unfolding f_mix32
close128 len w =
    let u = summed (each_word f_mix32 (summed (each_word (λ h. bit_xor h len) w))) in
    (bit_or (u.h1 * 4294967296) u.h2, bit_or (u.h3 * 4294967296) u.h4)

abbrev pub finish128 : ℕ → Bytes → Words → ℕ → ℕ × ℕ
finish128 pos backlog w len = close128 len (tail128 pos backlog w)

unfoldable pub flush128 : Hash Words → ℕ × ℕ
flush128 v = finish128 v.backlog_pos v.backlog v.words v.len

-- `rdxHashBytes` of rdx_utility.hpp
unfoldable pub hash_bytes : Bytes → ℕ
unfolding flush32 feed_bytes
hash_bytes bytes = flush32 (feed_bytes32 bytes init32)
