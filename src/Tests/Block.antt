-- ===== src/Tests/Block.antt =====
-- src/rdxcompression/rdx_comp_cblock.cpp: a block through all stages, and the theorems on it.
use rdx.Base.{
  ℕ, zero, suc, ◌+◌, ◌-◌, ◌<◌, ◌≤◌, ◌≡◌, ◌⊎◌, refl, List, [], ◌∷◌, Bytes, AllBytes, leb,
  if◌then◌else◌, length, replicate, range_from, arith,
}
use rdx.Base.Run.{ok}
use rdx.Compress.Block.{
  Compressed, nothing, header_size, dump, r5_block_sort, encode_intervals, encode_symbols,
  encode_byte, flush_run, block_loop, finish, with_header, new_coder, r5_compress_block,
}
use rdx.Compress.Rle0.Stream.{expand}
use rdx.Compress.Mtf.Stream.{decode_all}
use rdx.Compress.Model.{ModelSet}
use rdx.Compress.RangeCoder.{RangeEnc}
use rdx.Compress.Block.Framed.{IsOrder, AllBelow, bitstream, framed}
use rdx.Compress.Block.Whole.{r5_compress_block-staged, r5_compress_block-shorter}
use rdx.Compress.Mtf
use rdx.Compress.Mtf.Stream
use rdx.Compress.Rle0
use rdx.Compress.Model
use rdx.Compress.RangeCoder

-- 40 bytes 7: any order sorts them
abbrev block : Bytes
block = replicate 40 7

abbrev by_index : Bytes → List ℕ
by_index input = range_from 0 (length input)

program : Unit {0}
unfolding dump r5_block_sort encode_intervals encode_symbols encode_byte flush_run block_loop finish
    with_header new_coder r5_compress_block Mtf.init Mtf.encode Mtf.write Mtf.write12
    Mtf.raise_between Mtf.demote_first Rle0.init Rle0.encode Rle0.flush Rle0.run_symbols
    Rle0.top_bit Rle0.emit_bits Rle0.count_bits Model.init Model.init_pool Model.init_totals
    Model.classify Model.classify_large Model.sum_below Model.last_below Model.first_interval
    Model.second_interval Model.update_probabilities Model.halve Model.encode RangeCoder.init
    RangeCoder.emit_pending RangeCoder.shift_low RangeCoder.normalize RangeCoder.narrow
    RangeCoder.encode RangeCoder.flush_rounds RangeCoder.flush
program = tt

packed :
    r5_compress_block by_index block
    ≡ ok (record {
      size = 14;
      output = 0 ∷ 0 ∷ 1 ∷ 0 ∷ 0 ∷ 7 ∷ 0 ∷ 109 ∷ 247 ∷ 33 ∷ 97 ∷ 223 ∷ 44 ∷ 0 ∷ [];
    })
packed = unfold program in refl

too_short : r5_compress_block by_index (replicate 12 7) ≡ ok nothing
too_short = unfold program in refl

AllBelow-range_from : (n i bound : ℕ) → i + n ≤ bound → AllBelow bound (range_from i n)
AllBelow-range_from zero i bound h = tt
AllBelow-range_from (suc n) i bound h =
    (omega (arith, h), AllBelow-range_from n (i + 1) bound (omega (arith, h)))

block-IsOrder : IsOrder (length block) (by_index block)
block-IsOrder = record { size = refl; below = AllBelow-range_from 40 0 40 (omega arith) }

AllBytes-replicate : (n b : ℕ) → b < 256 → AllBytes (replicate n b)
AllBytes-replicate zero b h = tt
AllBytes-replicate (suc n) b h = (h, AllBytes-replicate n b h)

r5_compress_block-staged_example :
    let sorted = (r5_block_sort by_index block).0 in
    let symbols = (Rle0.encode_all (Mtf.Stream.encode_all sorted Mtf.init).0 Rle0.init).0 in
    (a : Bytes × ModelSet × RangeEnc) × (encode_symbols symbols Model.init RangeCoder.init ≡ ok a)
    × (decode_all (expand 1 symbols) Mtf.init.indexes Mtf.init.last ≡ sorted)
    × (r5_compress_block by_index block
        ≡ ok (
            if leb (length block) header_size
            then nothing
            else framed
                (length block - header_size)
                (r5_block_sort by_index block).1
                (length symbols)
                (bitstream a)))
r5_compress_block-staged_example =
    r5_compress_block-staged by_index block (AllBytes-replicate 40 7 (omega arith)) (omega arith)
      block-IsOrder

r5_compress_block-shorter_example :
    (r : Compressed) × (r5_compress_block by_index block ≡ ok r)
    × (r.size ≡ length r.output)
    × ((r.size ≡ 0) ⊎ (r.size < length block))
r5_compress_block-shorter_example =
    r5_compress_block-shorter by_index block (AllBytes-replicate 40 7 (omega arith)) (omega arith)
      block-IsOrder
