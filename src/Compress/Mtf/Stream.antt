-- ===== src/Compress/Mtf/Stream.antt =====
-- A whole block through the move-to-front stage and back.
use rdx.Base.{
  ℕ, zero, suc, ◌+◌, ◌<◌, ◌≡◌, refl, ap, List, [], ◌∷◌, arith, length, Bytes, AllBytes, range_from,
}
use rdx.Compress.Mtf.Inverse.{Inverse, read-write}
use rdx.Compress.Mtf.{at, Stage, init, mtf_variant, write, read, encode}

-- The calls of `mtf.Encode` in the loop of `R5CompressBlock`: what they hand on, and the last state.
unfoldable pub encode_all : Bytes → Stage → Bytes × Stage
unfolding encode
encode_all [] s = ([], s)
encode_all (v ∷ vs) s = let (c, s') = encode v s in let (cs, t) = encode_all vs s' in (c ∷ cs, t)

-- The decoder's loop: `Read` on each rank, with the last rank read as `last`.
unfoldable pub decode_all : Bytes → List ℕ → ℕ → Bytes
decode_all [] order last = []
decode_all (c ∷ cs) order last =
    let (v, order') = read mtf_variant c order last in v ∷ decode_all cs order' c

length-range_from : (i n : ℕ) → length (range_from i n) ≡ n
length-range_from i zero = refl
length-range_from i (suc n) = ap suc (length-range_from (i + 1) n)

at-range_from : (i n j : ℕ) → j < n → at (range_from i n) j ≡ i + j
at-range_from i zero j h = absurd (omega arith)
at-range_from i (suc n) zero h = omega arith
at-range_from i (suc n) (suc j) h = omega (arith, at-range_from (i + 1) n j (omega arith))

-- `Init` numbers the symbols in order, which is its own inverse.
pub init-Inverse : Inverse init.indexes init.indexes
unfolding init
init-Inverse = record {
  ranks_size = length-range_from 0 256;
  order_size = length-range_from 0 256;
  rank_lt = λ v h. omega (arith, at-range_from 0 256 v h);
  symbol_lt = λ v h. omega (arith, at-range_from 0 256 v h);
  at_rank = λ v h. ground (arith, at-range_from 0 256 v h);
  at_symbol = λ v h. ground (arith, at-range_from 0 256 v h);
}

decode_all-encode_all :
    (vs : Bytes) (s : Stage) (order : List ℕ)
    → Inverse s.indexes order
    → AllBytes vs
    → (decode_all (encode_all vs s).0 order s.last ≡ vs) × AllBytes (encode_all vs s).0
unfolding decode_all encode_all
decode_all-encode_all [] s order inv h = (refl, tt)
decode_all-encode_all (v ∷ vs) s order inv h =
    let (same, small, inv') = read-write mtf_variant v s.last inv h.0 in
    let w = write mtf_variant v s.indexes s.last in
    let rest = decode_all-encode_all vs (record { indexes = w.1; last = w.0 }) _ inv' h.1 in
    (cc (same, rest.0), (small, rest.1))

-- For a block of bytes, decoding what the move-to-front stage codes from its initial state gives
-- the block back, and each coded symbol is a byte.
pub decode-encode :
    (vs : Bytes)
    → AllBytes vs
    → (decode_all (encode_all vs init).0 init.indexes init.last ≡ vs)
      × AllBytes (encode_all vs init).0
decode-encode vs h = decode_all-encode_all vs init init.indexes init-Inverse h
