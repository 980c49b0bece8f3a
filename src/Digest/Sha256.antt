-- ===== src/Digest/Sha256.antt =====
-- SHA-256 as src/rdx/rdx_guid.cpp computes it. A byte goes to its place in the words of `m_seeds`; when
-- sixteen words are full they are mixed into the state.
pub mod Reference
pub mod Schedule
pub mod Filled
pub mod Padded
use Prim.Native.Nat.{bit_and, bit_or, bit_xor}
use rdx.Base.{
  ℕ, zero, suc, ◌+◌, ◌-◌, ◌*◌, ◌/◌, ◌%◌, ◌^◌, List, [], ◌∷◌, ◌++◌, map, ◌==◌, if◌then◌else◌, Bytes,
  get_or, set, drop, replicate, u32, u64, range_from,
}

-- `ShiftRightRotate`
unfoldable pub shift_right_rotate : ℕ → ℕ → ℕ
shift_right_rotate v count = bit_or (v / 2 ^ count) (u32 (v * 2 ^ (32 - count)))

abbrev pub round_constants : List ℕ
round_constants =
    0x428a2f98 ∷ 0x71374491 ∷ 0xb5c0fbcf ∷ 0xe9b5dba5 ∷ 0x3956c25b ∷ 0x59f111f1 ∷ 0x923f82a4
    ∷ 0xab1c5ed5 ∷ 0xd807aa98 ∷ 0x12835b01 ∷ 0x243185be ∷ 0x550c7dc3 ∷ 0x72be5d74 ∷ 0x80deb1fe
    ∷ 0x9bdc06a7 ∷ 0xc19bf174 ∷ 0xe49b69c1 ∷ 0xefbe4786 ∷ 0x0fc19dc6 ∷ 0x240ca1cc ∷ 0x2de92c6f
    ∷ 0x4a7484aa ∷ 0x5cb0a9dc ∷ 0x76f988da ∷ 0x983e5152 ∷ 0xa831c66d ∷ 0xb00327c8 ∷ 0xbf597fc7
    ∷ 0xc6e00bf3 ∷ 0xd5a79147 ∷ 0x06ca6351 ∷ 0x14292967 ∷ 0x27b70a85 ∷ 0x2e1b2138 ∷ 0x4d2c6dfc
    ∷ 0x53380d13 ∷ 0x650a7354 ∷ 0x766a0abb ∷ 0x81c2c92e ∷ 0x92722c85 ∷ 0xa2bfe8a1 ∷ 0xa81a664b
    ∷ 0xc24b8b70 ∷ 0xc76c51a3 ∷ 0xd192e819 ∷ 0xd6990624 ∷ 0xf40e3585 ∷ 0x106aa070 ∷ 0x19a4c116
    ∷ 0x1e376c08 ∷ 0x2748774c ∷ 0x34b0bcb5 ∷ 0x391c0cb3 ∷ 0x4ed8aa4a ∷ 0x5b9cca4f ∷ 0x682e6ff3
    ∷ 0x748f82ee ∷ 0x78a5636f ∷ 0x84c87814 ∷ 0x8cc70208 ∷ 0x90befffa ∷ 0xa4506ceb ∷ 0xbef9a3f7
    ∷ 0xc67178f2 ∷ []

-- `~` of 32 bits
abbrev inverted : ℕ → ℕ
inverted x = 4294967295 - x

-- `SHA256Cycle`
unfoldable pub cycle : List ℕ → ℕ → ℕ → List ℕ
unfolding shift_right_rotate
cycle state seed round =
    let d : ℕ → ℕ = λ i. get_or state i 0 in
    let ch = bit_xor (bit_and (d 4) (d 5)) (bit_and (inverted (d 4)) (d 6)) in
    let s1 =
      bit_xor (bit_xor (shift_right_rotate (d 4) 6) (shift_right_rotate (d 4) 11))
        (shift_right_rotate (d 4) 25) in
    let combine1 = u32 (get_or round_constants round 0 + seed + ch + d 7 + s1) in
    let ma = bit_xor (bit_xor (bit_and (d 0) (d 1)) (bit_and (d 0) (d 2))) (bit_and (d 1) (d 2)) in
    let s0 =
      bit_xor (bit_xor (shift_right_rotate (d 0) 2) (shift_right_rotate (d 0) 13))
        (shift_right_rotate (d 0) 22) in
    u32 (combine1 + ma + s0) ∷ d 0 ∷ d 1 ∷ d 2 ∷ u32 (d 3 + combine1) ∷ d 4 ∷ d 5 ∷ d 6 ∷ []

-- `rdxCSHA256Generator`
pub record Generator : Type 0 where
  pub state : List ℕ
  pub seeds : List ℕ
  pub message_length : ℕ
  pub seed_offset : ℕ

-- `Init`, which leaves the words from the seventeenth on as they are.
unfoldable pub init_sha256 : List ℕ → Generator
init_sha256 behind = record {
  state =
      0x6a09e667 ∷ 0xbb67ae85 ∷ 0x3c6ef372 ∷ 0xa54ff53a ∷ 0x510e527f ∷ 0x9b05688c ∷ 0x1f83d9ab
      ∷ 0x5be0cd19 ∷ [];
  seeds = replicate 16 0 ++ behind;
  message_length = 0;
  seed_offset = 0;
}

-- n rounds of the loop that extends the seeds, from i on
unfoldable pub extend_seeds : ℕ → ℕ → List ℕ → List ℕ
unfolding shift_right_rotate
extend_seeds zero i seeds = seeds
extend_seeds (suc n) i seeds =
    let w : ℕ → ℕ = λ j. get_or seeds j 0 in
    let s0 =
      bit_xor (bit_xor (shift_right_rotate (w (i - 15)) 7) (shift_right_rotate (w (i - 15)) 18))
        (shift_right_rotate (w (i - 15)) 3) in
    let s1 =
      bit_xor (bit_xor (shift_right_rotate (w (i - 2)) 17) (shift_right_rotate (w (i - 2)) 19))
        (shift_right_rotate (w (i - 2)) 10) in
    extend_seeds n (i + 1) (set seeds i (u32 (w (i - 16) + w (i - 7) + s0 + s1)))

-- n rounds of the loop over the cycles, from i on
unfoldable pub cycles : ℕ → ℕ → List ℕ → List ℕ → List ℕ
unfolding cycle
cycles zero i seeds state = state
cycles (suc n) i seeds state = cycles n (i + 1) seeds (cycle state (get_or seeds i 0) i)

-- `FeedBytes` in its loop, with its copies of the offset and of the length
pub record Feeding : Type 0 where
  pub self : Generator
  pub offset : ℕ
  pub fed_length : ℕ

-- one round of the loop
unfoldable pub feed_seed : ℕ → Feeding → Feeding
unfolding extend_seeds cycles
feed_seed b l =
    let word = l.offset / 4 in
    let shifted = u32 (b * 2 ^ (l.offset % 4 * 8)) in
    let seeds = set l.self.seeds word (bit_or (get_or l.self.seeds word 0) shifted) in
    let offset = l.offset + 1 in
    let extended = extend_seeds 48 16 seeds in
    if offset == 64
    then record {
      self = record l.self {
        state = cycles 64 0 extended l.self.state;
        seeds = replicate 16 0 ++ drop 16 extended;
      };
      offset = 0;
      fed_length = u64 (l.fed_length + 1);
    }
    else record {
      self = record l.self { seeds = seeds };
      offset = offset;
      fed_length = u64 (l.fed_length + 1);
    }

unfoldable pub feed_loop_sha256 : Bytes → Feeding → Feeding
feed_loop_sha256 [] l = l
feed_loop_sha256 (b ∷ bs) l = feed_loop_sha256 bs (feed_seed b l)

-- what `FeedBytes` does in front of its loop, and behind it
abbrev pub fetched : Generator → Feeding
fetched v = record { self = v; offset = v.seed_offset; fed_length = v.message_length }

abbrev pub written_back : Feeding → Generator
written_back l = record l.self { seed_offset = l.offset; message_length = l.fed_length }

unfoldable pub feed_seeds : Bytes → Generator → Generator
feed_seeds bs v = written_back (feed_loop_sha256 bs (fetched v))

-- `FeedBytes` for one piece after the other
unfoldable pub feed_pieces : List Bytes → Generator → Generator
feed_pieces [] v = v
feed_pieces (p ∷ ps) v = feed_pieces ps (feed_seeds p v)

-- the bytes of words, from the lowest of the first on
abbrev pub word_bytes : ℕ → ℕ → Bytes
word_bytes n w = map (λ i. w / 2 ^ (i * 8) % 256) (range_from 0 n)

abbrev pub output : List ℕ → Bytes
output [] = []
output (w ∷ ws) = word_bytes 4 w ++ output ws

abbrev pub padding_needed : ℕ → ℕ
padding_needed message_length = 63 - u64 (message_length + 8) % 64

-- `Flush`: the output and what is left
unfoldable pub flush_sha256 : Generator → Bytes × Generator
unfolding feed_seeds
flush_sha256 v =
    let one = feed_seeds (0x80 ∷ []) v in
    let filled = feed_seeds (replicate (padding_needed v.message_length) 0) one in
    let w = feed_seeds (word_bytes 8 v.message_length) filled in (output w.state, w)
