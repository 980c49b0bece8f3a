-- ===== src/Digest/Sha256/Reference.antt =====
-- What src/rdx/rdx_guid.cpp computes, of a message that is there as a whole: blocks of 64 bytes, a
-- schedule of 64 words and 64 rounds for each, as the standard of SHA-256 writes them, with the three
-- places where the code differs: the bytes of a word from the lowest on, rotations only, and no sum
-- with the state before.
use Prim.Native.Nat.{bit_and, bit_or, bit_xor}
use rdx.Base.{
  ℕ, zero, suc, ◌+◌, ◌-◌, ◌*◌, ◌%◌, ◌^◌, List, [], ◌∷◌, ◌++◌, Bytes, get_or, length, replicate, u32,
  u64,
}
use rdx.Digest.Buffer.Blocks.{absorbed}
use rdx.Digest.Sha256.{shift_right_rotate, round_constants, word_bytes, output}

-- the byte at a place of a word
abbrev pub placed : ℕ → ℕ → ℕ
placed b i = u32 (b * 2 ^ (i * 8))

abbrev pub words : Bytes → List ℕ
words (b0 ∷ b1 ∷ b2 ∷ b3 ∷ bs) =
    bit_or (bit_or (bit_or (placed b0 0) (placed b1 1)) (placed b2 2)) (placed b3 3) ∷ words bs
words bs = []

abbrev pub rotations : ℕ → ℕ → ℕ → ℕ → ℕ
rotations i j k x =
    bit_xor (bit_xor (shift_right_rotate x i) (shift_right_rotate x j)) (shift_right_rotate x k)

-- the word behind those of a schedule
unfoldable pub next_word : List ℕ → ℕ
next_word ws =
    let w : ℕ → ℕ = λ i. get_or ws (length ws - i) 0 in
    u32 (rotations 17 19 10 (w 2) + w 7 + rotations 7 18 3 (w 15) + w 16)

unfoldable pub schedule : ℕ → List ℕ → List ℕ
schedule zero ws = ws
schedule (suc n) ws = schedule n (ws ++ next_word ws ∷ [])

pub record Working : Type 0 where
  pub a : ℕ
  pub b : ℕ
  pub c : ℕ
  pub d : ℕ
  pub e : ℕ
  pub f : ℕ
  pub g : ℕ
  pub h : ℕ

abbrev pub listed : Working → List ℕ
listed s = s.a ∷ s.b ∷ s.c ∷ s.d ∷ s.e ∷ s.f ∷ s.g ∷ s.h ∷ []

unfoldable pub round : ℕ → ℕ → Working → Working
round k w s =
    let choice = bit_xor (bit_and s.e s.f) (bit_and (4294967295 - s.e) s.g) in
    let majority = bit_xor (bit_xor (bit_and s.a s.b) (bit_and s.a s.c)) (bit_and s.b s.c) in
    let t1 = u32 (s.h + rotations 6 11 25 s.e + choice + k + w) in
    let t2 = rotations 2 13 22 s.a + majority in
    record {
      a = u32 (t1 + t2);
      b = s.a;
      c = s.b;
      d = s.c;
      e = u32 (s.d + t1);
      f = s.e;
      g = s.f;
      h = s.g;
    }

unfoldable pub rounds : List ℕ → List ℕ → Working → Working
rounds [] ws s = s
rounds (k ∷ ks) [] s = s
rounds (k ∷ ks) (w ∷ ws) s = rounds ks ws (round k w s)

unfoldable pub compress : Working → Bytes → Working
compress s block = rounds round_constants (schedule 48 (words block)) s

abbrev pub initial : Working
initial = record {
  a = 0x6a09e667;
  b = 0xbb67ae85;
  c = 0x3c6ef372;
  d = 0xa54ff53a;
  e = 0x510e527f;
  f = 0x9b05688c;
  g = 0x1f83d9ab;
  h = 0x5be0cd19;
}

-- A message with a bit, as few zeros as fill the last block, and its length.
abbrev pub padded : Bytes → Bytes
padded bs =
    let zeros = replicate ((119 - length bs % 64) % 64) 0 in
    bs ++ ((0x80 ∷ []) ++ zeros ++ word_bytes 8 (u64 (length bs)))

abbrev pub digest256 : Bytes → Bytes
digest256 bs = output (listed (absorbed 64 compress initial (padded bs)).0)
