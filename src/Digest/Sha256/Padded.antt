-- ===== src/Digest/Sha256/Padded.antt =====
-- The digest of src/rdx/rdx_guid.cpp of bytes that are fed piece by piece is that of the padded message.
use rdx.Base.{
  ℕ, zero, suc, ◌+◌, ◌-◌, ◌*◌, ◌/◌, ◌%◌, ◌<◌, ◌≤◌, ◌≡◌, refl, sym, ap, ◌∙◌, inl, inr, List, [], ◌∷◌,
  ◌++◌, arith, ◌==◌, Bytes, length, take, drop, replicate, u64, Bool-cases, length-append,
  length-replicate,
}
use rdx.Digest.Buffer.Absorbed.{joined}
use rdx.Digest.Buffer.Blocks.{absorbed, absorbed-short, absorbed-block}
use rdx.Digest.Sha256.{
  Generator, Feeding, init_sha256, feed_seed, feed_loop_sha256, feed_seeds, feed_pieces, fetched,
  written_back, word_bytes, output, padding_needed, flush_sha256,
}
use rdx.Digest.Sha256.Reference.{Working, listed, compress, initial, padded, digest256}
use rdx.Digest.Sha256.Filled.{feeding, counted, length-drop, feed_block}

feed_loop_sha256-append :
    (xs ys : Bytes) (l : Feeding)
    → feed_loop_sha256 (xs ++ ys) l ≡ feed_loop_sha256 ys (feed_loop_sha256 xs l)
unfolding feed_loop_sha256
feed_loop_sha256-append [] ys l = refl
feed_loop_sha256-append (x ∷ xs) ys l = feed_loop_sha256-append xs ys (feed_seed x l)

-- The copies stand for the fields of the generator.
feed_seed-fetched :
    (b : ℕ) (l : Feeding)
    → written_back (feed_seed b l) ≡ written_back (feed_seed b (fetched (written_back l)))
unfolding feed_seed
feed_seed-fetched b l = elim (Bool-cases (l.offset + 1 == 64)) [
  | inl full ↦ rw full refl
  | inr few ↦ rw few refl
]

feed_loop_sha256-fetched :
    (bs : Bytes) (l : Feeding)
    → written_back (feed_loop_sha256 bs l)
      ≡ written_back (feed_loop_sha256 bs (fetched (written_back l)))
unfolding feed_loop_sha256
feed_loop_sha256-fetched [] l = refl
feed_loop_sha256-fetched (b ∷ bs) l =
    let again : Feeding = feed_seed b (fetched (written_back l)) in
    feed_loop_sha256-fetched bs (feed_seed b l)
    ∙ ap (λ v. written_back (feed_loop_sha256 bs (fetched v))) (feed_seed-fetched b l)
    ∙ sym (feed_loop_sha256-fetched bs again)

feed_seeds-append :
    (xs ys : Bytes) (v : Generator) → feed_seeds (xs ++ ys) v ≡ feed_seeds ys (feed_seeds xs v)
unfolding feed_seeds
feed_seeds-append xs ys v =
    ap written_back (feed_loop_sha256-append xs ys (fetched v))
    ∙ feed_loop_sha256-fetched ys (feed_loop_sha256 xs (fetched v))

feed_pieces-joined : (ps : List Bytes) (v : Generator) → feed_pieces ps v ≡ feed_seeds (joined ps) v
unfolding feed_pieces feed_seeds feed_loop_sha256
feed_pieces-joined [] v = refl
feed_pieces-joined (p ∷ ps) v =
    feed_pieces-joined ps (feed_seeds p v) ∙ sym (feed_seeds-append p (joined ps) v)

fed_length_lem :
    (bs : Bytes) (l : Feeding)
    → (feed_loop_sha256 bs l).fed_length ≡ counted (length bs) l.fed_length
unfolding feed_loop_sha256 feed_seed
fed_length_lem [] l = refl
fed_length_lem (b ∷ bs) l = elim (Bool-cases (l.offset + 1 == 64)) [
  | inl full ↦ fed_length_lem bs (feed_seed b l) ∙ ap (counted (length bs)) (rw full refl)
  | inr few ↦ fed_length_lem bs (feed_seed b l) ∙ ap (counted (length bs)) (rw few refl)
]

counted_lem : (k n : ℕ) → n < 18446744073709551616 → counted k n ≡ u64 (n + k)
counted_lem zero n h = omega (arith, h)
counted_lem (suc k) n h = counted_lem k (u64 (n + 1)) (omega arith) ∙ omega arith

append-take : (n : ℕ) (bs : Bytes) → take n bs ++ drop n bs ≡ bs
append-take zero bs = refl
append-take (suc n) [] = refl
append-take (suc n) (b ∷ bs) = ap (λ cs. b ∷ cs) (append-take n bs)

length-take : (n : ℕ) (bs : Bytes) → n ≤ length bs → length (take n bs) ≡ n
length-take zero bs h = refl
length-take (suc n) [] h = absurd (omega (arith, h))
length-take (suc n) (b ∷ bs) h = ap suc (length-take n bs (omega (arith, h)))

-- Whole blocks are compressed one after the other.
feed_blocks :
    (k : ℕ) (s : Working) (behind : List ℕ) (bs : Bytes) (n : ℕ) (kept : ℕ × ℕ)
    → length behind ≡ 48
    → length bs ≡ k * 64
    → (feed_loop_sha256 bs (feeding (listed s) (replicate 16 0 ++ behind) 0 n kept)).self.state
      ≡ listed (absorbed 64 compress s bs).0
unfolding feed_loop_sha256
feed_blocks zero s behind [] n kept l m =
    ap (λ r. listed r.0) (sym (absorbed-short 64 compress (omega arith) s [] (omega arith)))
feed_blocks zero s behind (b ∷ bs) n kept l m = absurd (omega (arith, m))
feed_blocks (suc k) s behind bs n kept l m =
    let block : Bytes = take 64 bs in
    let rest : Bytes = drop 64 bs in
    let size : length block ≡ 64 = length-take 64 bs (omega (arith, m)) in
    let (next, l', fed) = feed_block s behind block n kept l size in
    let start : Feeding = feeding (listed s) (replicate 16 0 ++ behind) 0 n kept in
    ap (λ cs. (feed_loop_sha256 cs start).self.state) (sym (append-take 64 bs))
    ∙ ap (λ f. f.self.state) (feed_loop_sha256-append block rest start)
    ∙ ap (λ f. (feed_loop_sha256 rest f).self.state) fed
    ∙ feed_blocks k (compress s block) next rest (counted 64 n) kept l'
        (length-drop 64 bs ∙ omega (arith, m))
    ∙ ap (λ r. listed r.0)
        (sym (absorbed-block 64 compress (omega arith) s block rest size)
          ∙ ap (absorbed 64 compress s) (append-take 64 bs))

-- what `Flush` feeds
abbrev end_of_message : ℕ → Bytes
end_of_message n = (0x80 ∷ []) ++ replicate (padding_needed n) 0 ++ word_bytes 8 n

flush-fed :
    (v : Generator)
    → (flush_sha256 v).0 ≡ output (feed_seeds (end_of_message v.message_length) v).state
unfolding flush_sha256
flush-fed v =
    let n : ℕ = v.message_length in
    let zeros : Bytes = replicate (padding_needed n) 0 in
    let all =
      feed_seeds-append ((0x80 ∷ []) ++ zeros) (word_bytes 8 n) v
      ∙ ap (feed_seeds (word_bytes 8 n)) (feed_seeds-append (0x80 ∷ []) zeros v) in
    ap (λ (w : Generator). output w.state) (sym all)

-- The padding that `Flush` asks for fills the last block with the fewest zeros.
padded_lem : (bs : Bytes) → bs ++ end_of_message (u64 (length bs)) ≡ padded bs
padded_lem bs =
    let n : ℕ = u64 (length bs) in
    let fewest : padding_needed n ≡ (119 - length bs % 64) % 64 = omega arith in
    ap (λ k. bs ++ ((0x80 ∷ []) ++ replicate k 0 ++ word_bytes 8 n)) fewest

length-padded : (bs : Bytes) → length (padded bs) % 64 ≡ 0
length-padded bs =
    let k : ℕ = (119 - length bs % 64) % 64 in
    let zeros : Bytes = replicate k 0 in
    let last : Bytes = word_bytes 8 (u64 (length bs)) in
    omega (
      arith,
      length-append bs ((0x80 ∷ []) ++ zeros ++ last),
      length-append ((0x80 ∷ []) ++ zeros) last,
      length-replicate {A = ℕ} k 0,
    )

-- For a message cut to pieces in any way, and any 48 words in memory behind those that `Init` sets:
-- feeding the pieces and `Flush` put out the digest of the padded message, which is a bit, the
-- fewest zeros that fill the last block, and the length of 64 bits behind the message, cut to
-- blocks of 64 bytes; each block is made a schedule of 64 words and 64 rounds.
pub flush_sha256-feed_pieces :
    (ps : List Bytes) (behind : List ℕ)
    → length behind ≡ 48
    → (flush_sha256 (feed_pieces ps (init_sha256 behind))).0 ≡ digest256 (joined ps)
unfolding init_sha256 feed_seeds
flush_sha256-feed_pieces ps behind l =
    let bs : Bytes = joined ps in
    let start : Generator = init_sha256 behind in
    let v : Generator = feed_seeds bs start in
    let size : v.message_length ≡ u64 (length bs) =
      fed_length_lem bs (fetched start) ∙ counted_lem (length bs) 0 (omega arith) ∙ omega arith in
    ap (λ w. (flush_sha256 w).0) (feed_pieces-joined ps start)
    ∙ flush-fed v
    ∙ ap (λ n. output (feed_seeds (end_of_message n) v).state) size
    ∙ ap (λ (w : Generator). output w.state)
        (sym (feed_seeds-append bs (end_of_message (u64 (length bs))) start)
          ∙ ap (λ cs. feed_seeds cs start) (padded_lem bs))
    ∙ ap output (
        feed_blocks (length (padded bs) / 64) initial behind (padded bs) 0 (0, 0) l
          (omega (arith, length-padded bs)))
