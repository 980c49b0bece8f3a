-- ===== src/Compress/Block.antt =====
-- `R5BlockSort` and `R5CompressBlock` of src/rdxcompression/rdx_comp_cblock.cpp: the stages put
-- together. `BlockSort`, which is code of another project, is a parameter: the order that it leaves
-- in `arr1`. The bytes that the stages write through `ppOut` are a list.
pub mod Symbols
pub mod Fit
pub mod Loop
pub mod Framed
pub mod Whole
use rdx.Base.{
  ℕ, zero, suc, ◌+◌, ◌-◌, ◌*◌, ◌/◌, Bool, true, false, List, [], ◌∷◌, ◌++◌, Option, none, some, leb,
  ◌==◌, if◌then◌else◌, Bytes, length, get_or, take, u8, u32, u64,
}
use rdx.Base.Run.{Run, ok, out_of_bounds, out_of_fuel, ◌>>=◌}
use rdx.Compress.Model.{ModelSet, Interval}
use rdx.Compress.RangeCoder.{RangeEnc}
use rdx.Compress.Rle0.{Rle0}
use rdx.Compress.Mtf.{Stage}
use rdx.Compress.Mtf
use rdx.Compress.Rle0
use rdx.Compress.Model
use rdx.Compress.RangeCoder

-- the index before one, around the block
abbrev pub preceding : ℕ → ℕ → ℕ
preceding count n = if n == 0 then count - 1 else n - 1

-- The loop of `R5BlockSort` over the order, from an index on: the bytes before, and `pi`.
unfoldable pub dump : List ℕ → Bytes → ℕ → ℕ → Bytes × ℕ
dump [] input i pi = ([], pi)
dump (n ∷ order) input i pi =
    let n' = preceding (length input) n in
    let (rest, pi') = dump order input (i + 1) (if n' == 0 then i else pi) in
    (get_or input n' 0 ∷ rest, pi')

unfoldable pub r5_block_sort : (Bytes → List ℕ) → Bytes → Bytes × ℕ
r5_block_sort block_sort input = dump (block_sort input) input 0 0

-- `rc`, `smodel`, `rle0` and `mtf`
pub record Coder : Type 0 where
  pub rc : RangeEnc
  pub smodel : ModelSet
  pub rle0 : Rle0
  pub mtf : Stage

-- the range coder's loop within its fuel
abbrev pub run_of {ℓ} : {A : Type ℓ} → Option A → Run A
run_of none = out_of_fuel
run_of (some a) = ok a

-- The calls of `rc.Encode`.
unfoldable pub encode_intervals : List Interval → RangeEnc → Run (Bytes × RangeEnc)
encode_intervals [] rc = ok ([], rc)
encode_intervals (i ∷ is) rc =
    run_of (RangeCoder.encode i.start i.size i.total rc) >>= λ (bytes, rc').
    encode_intervals is rc' >>= λ (rest, rc''). ok (bytes ++ rest, rc'')

-- The calls of `smodel.Encode`.
unfoldable pub encode_symbols : List ℕ → ModelSet → RangeEnc → Run (Bytes × ModelSet × RangeEnc)
encode_symbols [] smodel rc = ok ([], smodel, rc)
encode_symbols (sym ∷ syms) smodel rc =
    let (intervals, smodel') = Model.encode sym smodel in
    encode_intervals intervals rc >>= λ (bytes, rc').
    encode_symbols syms smodel' rc' >>= λ (rest, smodel'', rc''). ok (bytes ++ rest, smodel'', rc'')

-- `mtf.Encode(…, rle0, smodel, rc, &bitstream)`
unfoldable pub encode_byte : ℕ → Coder → Run (Bytes × Coder)
encode_byte v c =
    let (rank, mtf') = Mtf.encode v c.mtf in
    let (symbols, rle0') = Rle0.encode rank c.rle0 in
    encode_symbols symbols c.smodel c.rc >>= λ (bytes, smodel', rc').
    ok (bytes, record { rc = rc'; smodel = smodel'; rle0 = rle0'; mtf = mtf' })

-- `rle0.Flush(smodel, rc, &bitstream)`
unfoldable pub flush_run : Coder → Run (Bytes × Coder)
flush_run c =
    let (symbols, rle0') = Rle0.flush c.rle0 in
    encode_symbols symbols c.smodel c.rc >>= λ (bytes, smodel', rc').
    ok (bytes, record c { rc = rc'; smodel = smodel'; rle0 = rle0' })

-- The loop over the block behind the bytes written so far, or none for `return 0`.
unfoldable pub block_loop : ℕ → Bytes → Bytes → Coder → Run (Option (Bytes × Coder))
block_loop bitstream_max [] written c = ok (some (written, c))
block_loop bitstream_max (v ∷ vs) written c = encode_byte v c >>= λ (bytes, c').
    let rest = block_loop bitstream_max vs (written ++ bytes) c' in
    if leb bitstream_max (length (written ++ bytes)) then ok none else rest

-- the two calls of `Flush` behind the loop, each with its test
unfoldable pub finish : ℕ → Option (Bytes × Coder) → Run (Option (Bytes × Coder))
finish bitstream_max none = ok none
finish bitstream_max (some (written, c)) = flush_run c >>= λ (bytes, c').
    let all = written ++ bytes ++ (RangeCoder.flush c'.rc).0 in
    if leb bitstream_max (length (written ++ bytes))
    then ok none
    else if leb bitstream_max (length all)
    then ok none
    else ok (some (all, record c' { rc = (RangeCoder.flush c'.rc).1 }))

-- what is returned, and the bytes of `finaloutput` where it is not 0
pub record Compressed : Type 0 where
  pub size : ℕ
  pub output : Bytes

abbrev pub nothing : Compressed
nothing = record { size = 0; output = [] }

-- `static_cast<rdxUInt8>(x >> 16)` and so on
abbrev pub three_bytes : ℕ → Bytes
three_bytes x = u8 (x / 65536) ∷ u8 (x / 256) ∷ u8 x ∷ []

abbrev pub header_size : ℕ
header_size = 6

unfoldable pub with_header : ℕ → Option (Bytes × Coder) → Compressed
with_header pindex none = nothing
with_header pindex (some (bitstream, c)) = record {
  size = length bitstream + header_size;
  output = three_bytes pindex ++ three_bytes c.rle0.num_values_emitted ++ bitstream;
}

unfoldable pub new_coder : Coder
new_coder = record { rc = RangeCoder.init; smodel = Model.init; rle0 = Rle0.init; mtf = Mtf.init }

unfoldable pub r5_compress_block : (Bytes → List ℕ) → Bytes → Run Compressed
r5_compress_block block_sort input =
    let (bwtoutput, pindex) = r5_block_sort block_sort input in
    let bitstream_max = length input - header_size in
    let run = block_loop bitstream_max bwtoutput [] new_coder >>= finish bitstream_max >>= λ coded.
    ok (with_header pindex coded) in
    if leb (length input) header_size then ok nothing else run

unfoldable pub r5_get_work_buffer_size : ℕ → ℕ
r5_get_work_buffer_size input_size = u64 (u64 (input_size * 8) + 160)

-- `rdxR5CompressBlock`, where the size becomes a word of 32 bits
unfoldable pub rdx_r5_compress_block : (Bytes → List ℕ) → Bytes → Run Compressed
rdx_r5_compress_block block_sort input =
    r5_compress_block block_sort (take (u32 (length input)) input)
