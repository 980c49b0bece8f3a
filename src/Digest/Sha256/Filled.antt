-- ===== src/Digest/Sha256/Filled.antt =====
-- Bytes that `FeedBytes` of src/rdx/rdx_guid.cpp puts to the words of the seeds, and a full block.
use Prim.Native.Nat.{bit_or, bit_or-bitwise}
use rdx.Base.{
  ℕ, zero, suc, ◌+◌, ◌-◌, ◌*◌, ◌/◌, ◌%◌, ◌^◌, ◌<◌, ◌≤◌, ◌≡◌, refl, sym, ap, ◌∙◌, true, false, List,
  [], ◌∷◌, ◌++◌, arith, ◌==◌, get_or, set, length, replicate, drop, Bytes, u32, u64,
}
use rdx.Digest.Sha256.{Feeding, feed_seed, feed_loop_sha256, extend_seeds, cycles, round_constants}
use rdx.Digest.Sha256.Reference.{placed, words, next_word, schedule, Working, listed, compress}
use rdx.Digest.Sha256.Schedule.{
  get_or_behind, set_behind, one_more, length_one_more, extend_seeds-schedule, cycles-rounds,
}

-- a generator in the loop, with the fields that the loop keeps a copy of
abbrev pub feeding : List ℕ → List ℕ → ℕ → ℕ → ℕ × ℕ → Feeding
feeding state seeds offset n (o, m) = record {
  self = record { state = state; seeds = seeds; message_length = m; seed_offset = o };
  offset = offset;
  fed_length = n;
}

-- A byte at a place of the word behind the full ones.
put_byte :
    (done rest : List ℕ) (x i b : ℕ)
    → i < 4
    → let off = length done * 4 + i in
      let seeds = done ++ x ∷ rest in
      (set seeds (off / 4) (bit_or (get_or seeds (off / 4) 0) (u32 (b * 2 ^ (off % 4 * 8))))
        ≡ done ++ bit_or x (placed b i) ∷ rest)
put_byte done rest x i b h =
    let word : (length done * 4 + i) / 4 ≡ length done = omega (arith, h) in
    let place : (length done * 4 + i) % 4 ≡ i = omega (arith, h) in
    rw (word, place, get_or_behind done rest x) (set_behind done rest x (bit_or x (placed b i)))

feed_inside :
    (state done rest : List ℕ) (x i b n : ℕ) (kept : ℕ × ℕ)
    → i < 4
    → length done * 4 + i < 63
    → feed_seed b (feeding state (done ++ x ∷ rest) (length done * 4 + i) n kept)
      ≡ feeding state
          (done ++ bit_or x (placed b i) ∷ rest)
          (length done * 4 + i + 1)
          (u64 (n + 1))
          kept
unfolding feed_seed
feed_inside state done rest x i b n kept h few =
    let more : (length done * 4 + i + 1 == 64) ≡ false = ground arith in
    rw (more, put_byte done rest x i b h) refl

-- what a full block leaves
abbrev pub settled : List ℕ → List ℕ → ℕ → ℕ × ℕ → Feeding
settled state seeds n kept =
    let extended = extend_seeds 48 16 seeds in
    feeding (cycles 64 0 extended state) (replicate 16 0 ++ drop 16 extended) 0 n kept

feed_last :
    (state done rest : List ℕ) (x b n : ℕ) (kept : ℕ × ℕ)
    → length done ≡ 15
    → feed_seed b (feeding state (done ++ x ∷ rest) (length done * 4 + 3) n kept)
      ≡ settled state (done ++ bit_or x (placed b 3) ∷ rest) (u64 (n + 1)) kept
unfolding feed_seed
feed_last state done rest x b n kept full =
    let all : (length done * 4 + 3 + 1 == 64) ≡ true = ground (arith, full) in
    rw (all, put_byte done rest x 3 b (omega arith)) refl

-- the count behind n bytes
abbrev pub counted : ℕ → ℕ → ℕ
counted zero n = n
counted (suc k) n = counted k (u64 (n + 1))

bit_or_zero : (y : ℕ) → bit_or 0 y ≡ y
bit_or_zero y = bit_or-bitwise 0 y

abbrev three_bytes : ℕ → ℕ → ℕ → ℕ
three_bytes b0 b1 b2 = bit_or (bit_or (placed b0 0) (placed b1 1)) (placed b2 2)

feed_three :
    (state done rest : List ℕ) (b0 b1 b2 n : ℕ) (kept : ℕ × ℕ)
    → length done ≤ 15
    → feed_seed b2
        (feed_seed b1 (feed_seed b0 (feeding state (done ++ 0 ∷ rest) (length done * 4) n kept)))
      ≡ feeding state (done ++ three_bytes b0 b1 b2 ∷ rest) (length done * 4 + 3) (counted 3 n) kept
feed_three state done rest b0 b1 b2 n kept few =
    let at : ℕ → ℕ → ℕ → Feeding = λ x i k. feeding state (done ++ x ∷ rest) i k kept in
    let at0 : length done * 4 ≡ length done * 4 + 0 = omega arith in
    let at1 : length done * 4 + 0 + 1 ≡ length done * 4 + 1 = omega arith in
    let at2 : length done * 4 + 1 + 1 ≡ length done * 4 + 2 = omega arith in
    let at3 : length done * 4 + 2 + 1 ≡ length done * 4 + 3 = omega arith in
    let x0 : ℕ = placed b0 0 in
    let x1 : ℕ = bit_or x0 (placed b1 1) in
    let first : feed_seed b0 (at 0 (length done * 4) n)
        ≡ at x0 (length done * 4 + 1) (counted 1 n) =
      ap (λ i. feed_seed b0 (at 0 i n)) at0
      ∙ feed_inside state done rest 0 0 b0 n kept (omega arith) (omega (arith, few))
      ∙ ap (λ i. at (bit_or 0 x0) i (counted 1 n)) at1
      ∙ ap (λ x. at x (length done * 4 + 1) (counted 1 n)) (bit_or_zero x0) in
    let second : feed_seed b1 (at x0 (length done * 4 + 1) (counted 1 n))
        ≡ at x1 (length done * 4 + 2) (counted 2 n) =
      feed_inside state done rest x0 1 b1 (counted 1 n) kept (omega arith) (omega (arith, few))
      ∙ ap (λ i. at x1 i (counted 2 n)) at2 in
    ap (λ l. feed_seed b2 (feed_seed b1 l)) first
    ∙ ap (feed_seed b2) second
    ∙ feed_inside state done rest x1 2 b2 (counted 2 n) kept (omega arith) (omega (arith, few))
    ∙ ap (λ i. at (three_bytes b0 b1 b2) i (counted 3 n)) at3

-- The words of a block from one of them on.
fill_words :
    (left : ℕ) (state done behind : List ℕ) (bs : Bytes) (n : ℕ) (kept : ℕ × ℕ)
    → length done + suc left ≡ 16
    → length bs ≡ suc left * 4
    → feed_loop_sha256 bs
        (feeding state (done ++ (0 ∷ replicate left 0 ++ behind)) (length done * 4) n kept)
      ≡ settled state ((done ++ words bs) ++ behind) (counted (length bs) n) kept
unfolding feed_loop_sha256
fill_words left state done behind [] n kept e l = absurd (omega (arith, l))
fill_words left state done behind (b0 ∷ []) n kept e l = absurd (omega (arith, l))
fill_words left state done behind (b0 ∷ b1 ∷ []) n kept e l = absurd (omega (arith, l))
fill_words left state done behind (b0 ∷ b1 ∷ b2 ∷ []) n kept e l = absurd (omega (arith, l))
fill_words zero state done behind (b0 ∷ b1 ∷ b2 ∷ b3 ∷ c ∷ cs) n kept e l =
    absurd (omega (arith, l))
fill_words zero state done behind (b0 ∷ b1 ∷ b2 ∷ b3 ∷ []) n kept e l =
    ap (feed_seed b3) (feed_three state done behind b0 b1 b2 n kept (omega (arith, e)))
    ∙ feed_last state done behind (three_bytes b0 b1 b2) b3 (counted 3 n) kept (omega (arith, e))
    ∙ ap (λ sd. settled state sd (counted 4 n) kept)
        (one_more done behind (bit_or (three_bytes b0 b1 b2) (placed b3 3)))
fill_words (suc left) state done behind (b0 ∷ b1 ∷ b2 ∷ b3 ∷ bs) n kept e l =
    let zeros : List ℕ = 0 ∷ replicate left 0 ++ behind in
    let w : ℕ = bit_or (three_bytes b0 b1 b2) (placed b3 3) in
    let next : length done * 4 + 3 + 1 ≡ length (done ++ w ∷ []) * 4 =
      omega (arith, length_one_more done w) in
    ap (λ f. feed_loop_sha256 bs (feed_seed b3 f))
      (feed_three state done zeros b0 b1 b2 n kept (omega (arith, e)))
    ∙ ap (feed_loop_sha256 bs) (
        feed_inside state done zeros (three_bytes b0 b1 b2) 3 b3 (counted 3 n) kept (omega arith)
          (omega (arith, e))
        ∙ ap (λ sd. feeding state sd (length done * 4 + 3 + 1) (counted 4 n) kept)
            (one_more done zeros w)
        ∙ ap (λ i. feeding state ((done ++ w ∷ []) ++ zeros) i (counted 4 n) kept) next)
    ∙ fill_words left state (done ++ w ∷ []) behind bs (counted 4 n) kept
        (omega (arith, e, length_one_more done w)) (omega (arith, l))
    ∙ ap (λ ws. settled state (ws ++ behind) (counted (length bs) (counted 4 n)) kept)
        (sym (one_more done (words bs) w))

length-words : (k : ℕ) (bs : Bytes) → length bs ≡ k * 4 → length (words bs) ≡ k
length-words k [] l = omega (arith, l)
length-words k (b0 ∷ []) l = absurd (omega (arith, l))
length-words k (b0 ∷ b1 ∷ []) l = absurd (omega (arith, l))
length-words k (b0 ∷ b1 ∷ b2 ∷ []) l = absurd (omega (arith, l))
length-words zero (b0 ∷ b1 ∷ b2 ∷ b3 ∷ bs) l = absurd (omega (arith, l))
length-words (suc k) (b0 ∷ b1 ∷ b2 ∷ b3 ∷ bs) l = ap suc (length-words k bs (omega (arith, l)))

length-schedule : (n : ℕ) (ws : List ℕ) → length (schedule n ws) ≡ length ws + n
unfolding schedule
length-schedule zero ws = omega arith
length-schedule (suc n) ws =
    length-schedule n (ws ++ next_word ws ∷ []) ∙ omega (arith, length_one_more ws (next_word ws))

pub length-drop : (n : ℕ) (ws : List ℕ) → length (drop n ws) ≡ length ws - n
length-drop zero ws = omega arith
length-drop (suc n) [] = omega arith
length-drop (suc n) (w ∷ ws) = length-drop n ws ∙ omega arith

-- A block that is fed to empty seeds is compressed, and leaves empty seeds.
pub feed_block :
    (s : Working) (behind : List ℕ) (block : Bytes) (n : ℕ) (kept : ℕ × ℕ)
    → length behind ≡ 48
    → length block ≡ 64
    → (next : List ℕ) × (length next ≡ 48)
      × (feed_loop_sha256 block (feeding (listed s) (replicate 16 0 ++ behind) 0 n kept)
          ≡ feeding (listed (compress s block)) (replicate 16 0 ++ next) 0 (counted 64 n) kept)
unfolding compress
feed_block s behind block n kept l m =
    let ws : List ℕ = words block in
    let sixteen : length ws ≡ 16 = length-words 16 block (omega (arith, m)) in
    let all : List ℕ = schedule 48 ws in
    let many : length all ≡ 64 = length-schedule 48 ws ∙ omega (arith, sixteen) in
    let extended : extend_seeds 48 16 (ws ++ behind) ≡ all =
      ap (λ i. extend_seeds 48 i (ws ++ behind)) (sym sixteen)
      ∙ extend_seeds-schedule 48 ws behind (omega (arith, sixteen)) l in
    let cycled : cycles 64 0 all (listed s) ≡ listed (compress s block) =
      ap (λ k. cycles k 0 all (listed s)) (sym many)
      ∙ cycles-rounds [] all [] round_constants s refl refl (omega (arith, many)) in
    (
      drop 16 all,
      length-drop 16 all ∙ omega (arith, many),
      fill_words 15 (listed s) [] behind block n kept (omega arith) (omega (arith, m))
          ∙ ap (λ k. settled (listed s) (ws ++ behind) (counted k n) kept) m
          ∙ ap
              (λ xs.
                feeding (cycles 64 0 xs (listed s)) (replicate 16 0 ++ drop 16 xs) 0 (counted 64 n)
                  kept)
              extended
          ∙ ap (λ st. feeding st (replicate 16 0 ++ drop 16 all) 0 (counted 64 n) kept) cycled,
    )
