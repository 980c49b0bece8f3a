-- ===== src/Compress/Block/Whole.antt =====
-- `R5CompressBlock` of src/rdxcompression/rdx_comp_cblock.cpp as a whole.
use rdx.Base.{
  ℕ, ◌+◌, ◌-◌, ◌*◌, ◌<◌, ◌≡◌, refl, sym, ap, ◌∙◌, ◌⊎◌, inl, inr, List, [], ◌++◌, leb, if◌then◌else◌,
  arith, Bytes, AllBytes, length, Bool-cases, u32,
}
use rdx.Base.Run.{ok, ◌>>=◌}
use rdx.Compress.Rle0.{Rle0, flush}
use rdx.Compress.Rle0.Stream.{expand, expand-encode, num_values_emitted-encode_all}
use rdx.Compress.Mtf.{Stage}
use rdx.Compress.Mtf.Stream.{decode_all, decode-encode, init-Inverse}
use rdx.Compress.Model.{ModelSet}
use rdx.Compress.RangeCoder.{RangeEnc}
use rdx.Compress.Mtf
use rdx.Compress.Mtf.Stream
use rdx.Compress.Rle0
use rdx.Compress.Model
use rdx.Compress.RangeCoder
use rdx.Compress.Block.{
  r5_block_sort, Coder, encode_symbols, Compressed, nothing, three_bytes, header_size, new_coder,
  r5_compress_block,
}
use rdx.Compress.Block.Symbols.{continued, encode_symbols-append}
use rdx.Compress.Block.Fit.{Flushed, flush_run-Flushed}
use rdx.Compress.Block.Loop.{encode_all-ranks, Looped, block_loop-Looped, symbols_of}
use rdx.Compress.Block.Framed.{
  IsOrder, dump_sized, new_coder-Fit, bitstream, framed, framed', length-encode_all, finished,
  three_bytes-u32, framed_sizes,
}

module _ (block_sort : Bytes → List ℕ) (input : Bytes) (bytes : AllBytes input)
    (small : length input < 16777216) (order : IsOrder (length input) (block_sort input)) where
  abbrev sorted : Bytes
  sorted = (r5_block_sort block_sort input).0

  abbrev symbols : List ℕ
  symbols = (Rle0.encode_all (Mtf.Stream.encode_all sorted Mtf.init).0 Rle0.init).0

  sorted_sized : AllBytes sorted × (length sorted ≡ length input)
  unfolding r5_block_sort
  sorted_sized =
      let (all, size) = dump_sized (block_sort input) input 0 0 bytes in (all, size ∙ order.size)

  symbols_decode : decode_all (expand 1 symbols) Mtf.init.indexes Mtf.init.last ≡ sorted
  symbols_decode =
      let (all, size) = sorted_sized in
      let (decoded, ranks) = decode-encode sorted all in
      let same_size = length-encode_all sorted Mtf.init in
      ap (λ ranks. decode_all ranks Mtf.init.indexes Mtf.init.last)
        (expand-encode (Mtf.Stream.encode_all sorted Mtf.init).0 ranks
          (omega (arith, small, size, same_size)))
      ∙ decoded

  -- the coder behind the loop and behind the flush
  record Coded (a f : Bytes × Coder) : Type 0 where
    loop : Looped 1 sorted new_coder a
    flushed : Flushed (1 + 180 * length sorted) a.1 f

  coded : (a : Bytes × Coder) × (f : Bytes × Coder) × Coded a f
  coded =
      let (all, size) = sorted_sized in
      let (a, l) =
        block_loop-Looped 1 sorted new_coder all new_coder-Fit (omega (arith, small, size)) in
      let (f, g) =
        flush_run-Flushed (1 + 180 * length sorted) a.1 l.fit (omega (arith, small, size)) in
      (a, f, record { loop = l; flushed = g })

  module _ (a f : Bytes × Coder) (c : Coded a f) where
    abbrev whole : Bytes × ModelSet × RangeEnc
    whole = (a.0 ++ f.0, f.1.smodel, f.1.rc)

    symbols_coded : encode_symbols symbols Model.init RangeCoder.init ≡ ok whole
    unfolding new_coder
    symbols_coded =
        let ranks = encode_all-ranks (Mtf.Stream.encode_all sorted Mtf.init).0 Rle0.init in
        let open_run = c.loop.rle0 in
        let flushed = ap flush open_run in
        let all = symbols_of sorted new_coder in
        ap (λ (r : List ℕ × Rle0). encode_symbols r.0 Model.init RangeCoder.init) ranks
        ∙ encode_symbols-append all.0 (flush all.1).0 Model.init RangeCoder.init
        ∙ ap (λ r. r >>= continued (flush all.1).0) c.loop.symbols
        ∙ ap
            (λ (r : List ℕ × Rle0).
              encode_symbols r.0 a.1.smodel a.1.rc >>= λ (rest, m, rc). ok (a.0 ++ rest, m, rc))
            (sym flushed)
        ∙ ap (λ r. r >>= λ (rest, m, rc). ok (a.0 ++ rest, m, rc)) c.flushed.symbols

    values_emitted : three_bytes f.1.rle0.num_values_emitted ≡ three_bytes (length symbols)
    unfolding new_coder Rle0.init
    values_emitted =
        let ranks = (Mtf.Stream.encode_all sorted Mtf.init).0 in
        let closed = encode_all-ranks ranks Rle0.init in
        let emitted = num_values_emitted-encode_all ranks Rle0.init (omega arith) in
        let last = c.flushed.rle0 ∙ ap (λ r. (flush r).1) c.loop.rle0 in
        let none_before : 0 + length symbols ≡ length symbols = omega arith in
        ap (λ (r : Rle0). three_bytes r.num_values_emitted)
          (last ∙ sym (ap (λ (r : List ℕ × Rle0). r.1) closed))
        ∙ ap three_bytes (emitted ∙ ap u32 none_before)
        ∙ three_bytes-u32 (length symbols)

    block_run :
        r5_compress_block block_sort input
        ≡ ok (
            if leb (length input) header_size
            then nothing
            else framed
                (length input - header_size)
                (r5_block_sort block_sort input).1
                (length symbols)
                (bitstream whole))
    unfolding r5_compress_block
    block_run =
        let m : ℕ = length input - header_size in
        let pindex : ℕ = (r5_block_sort block_sort input).1 in
        elim (Bool-cases (leb (length input) header_size)) [
          | inl short ↦ rw short refl
          | inr long ↦
              let room : 0 < m = ground arith in
              let loop = c.loop.run m [] room in
              let done = finished m pindex a.0 a.1 f c.flushed.run in
              rw (long, loop)
                (done
                  ∙ ap (λ values. ok (framed' m pindex values (bitstream whole))) values_emitted)
        ]

  -- For a block of less than 2 ^ 24 bytes whose sorted order has an index for each byte: the
  -- symbols that the first two stages make of the whole sorted block are coded to a stream of
  -- bytes, and decode to the sorted block; `R5CompressBlock` ends, and returns 0 where the block
  -- has at most six bytes or the stream is not shorter than the block less six, and else the stream
  -- behind a header of the index of the block and the number of symbols.
  pub r5_compress_block-staged :
      (a : Bytes × ModelSet × RangeEnc) × (encode_symbols symbols Model.init RangeCoder.init ≡ ok a)
      × (decode_all (expand 1 symbols) Mtf.init.indexes Mtf.init.last ≡ sorted)
      × (r5_compress_block block_sort input
          ≡ ok (
              if leb (length input) header_size
              then nothing
              else framed
                  (length input - header_size)
                  (r5_block_sort block_sort input).1
                  (length symbols)
                  (bitstream a)))
  r5_compress_block-staged =
      let (a, f, c) = coded in (whole a f c, symbols_coded a f c, symbols_decode, block_run a f c)

  -- For a block of less than 2 ^ 24 bytes whose sorted order has an index for each byte,
  -- `R5CompressBlock` ends and returns the number of bytes that it leaves, which is 0 or less than
  -- the length of the block.
  pub r5_compress_block-shorter :
      (r : Compressed) × (r5_compress_block block_sort input ≡ ok r)
      × (r.size ≡ length r.output)
      × ((r.size ≡ 0) ⊎ (r.size < length input))
  r5_compress_block-shorter =
      let (a, _, _, run) = r5_compress_block-staged in
      let (size, shorter) =
        framed_sizes (length input) (r5_block_sort block_sort input).1 (length symbols)
          (bitstream a) in
      (_, run, size, shorter)
