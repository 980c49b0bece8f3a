-- ===== src/Compress/Block/Framed.antt =====
-- The sorted block and the frame around the stream of bytes: `R5BlockSort` and the end of
-- `R5CompressBlock` of src/rdxcompression/rdx_comp_cblock.cpp.
use rdx.Base.{
  ℕ, zero, suc, ◌+◌, ◌-◌, ◌/◌, ◌<◌, ◌≡◌, refl, ap, ◌⊎◌, inl, inr, List, [], ◌∷◌, ◌++◌, leb,
  if◌then◌else◌, arith, Bytes, AllBytes, length, get_or, Bool-cases, u8, u32,
}
use rdx.Base.Run.{ok, ◌>>=◌}
use rdx.Compress.Mtf.{Stage}
use rdx.Compress.Mtf.Stream.{decode_all, decode-encode, init-Inverse}
use rdx.Compress.Model.{ModelSet}
use rdx.Compress.Model.Fresh.{init-IsValid}
use rdx.Compress.RangeCoder.{RangeEnc}
use rdx.Compress.RangeCoder.Encode.{init-IsReady}
use rdx.Compress.Mtf
use rdx.Compress.Mtf.Stream
use rdx.Compress.RangeCoder
use rdx.Compress.Block.{
  preceding, dump, Coder, flush_run, finish, Compressed, nothing, three_bytes, header_size,
  with_header, new_coder,
}
use rdx.Compress.Block.Fit.{Fit}
use rdx.Compress.Block.Loop.{within, leb_longer}

abbrev pub AllBelow : ℕ → List ℕ → Type 0
AllBelow n [] = Unit {0}
AllBelow n (x ∷ xs) = (x < n) × AllBelow n xs

-- What `BlockSort` leaves: an index below the length for each byte.
pub record IsOrder (count : ℕ) (order : List ℕ) : Type 0 where
  pub size : length order ≡ count
  pub below : AllBelow count order

AllBytes-get : (bs : Bytes) (i : ℕ) → AllBytes bs → get_or bs i 0 < 256
AllBytes-get [] i h = omega arith
AllBytes-get (b ∷ bs) zero h = h.0
AllBytes-get (b ∷ bs) (suc i) h = AllBytes-get bs i h.1

pub dump_sized :
    (order : List ℕ) (input : Bytes) (i pi : ℕ)
    → AllBytes input
    → AllBytes (dump order input i pi).0 × (length (dump order input i pi).0 ≡ length order)
unfolding dump
dump_sized [] input i pi h = (tt, refl)
dump_sized (n ∷ order) input i pi h =
    let (bytes, size) = dump_sized order input (i + 1) _ h in
    ((AllBytes-get input (preceding (length input) n) h, bytes), ap suc size)

pub new_coder-Fit : Fit 1 new_coder
unfolding new_coder RangeCoder.init
new_coder-Fit = record {
  order = _;
  inverse = init-Inverse;
  valid = init-IsValid;
  ready = init-IsReady;
  few = omega arith;
}

-- the bytes of all symbols, and those of the last flush
abbrev pub bitstream : Bytes × ModelSet × RangeEnc → Bytes
bitstream (bytes, smodel, rc) = bytes ++ (RangeCoder.flush rc).0

-- What is returned for a stream of bytes, of which less than a bound are to be written.
abbrev pub framed : ℕ → ℕ → ℕ → Bytes → Compressed
framed bitstream_max pindex values stream =
    if leb bitstream_max (length stream) then nothing else record {
      size = length stream + header_size;
      output = three_bytes pindex ++ three_bytes values ++ stream;
    }

-- the same with the bytes of the header
abbrev pub framed' : ℕ → ℕ → Bytes → Bytes → Compressed
framed' bitstream_max pindex values stream =
    if leb bitstream_max (length stream) then nothing else record {
      size = length stream + header_size;
      output = three_bytes pindex ++ values ++ stream;
    }

pub length-encode_all : (vs : Bytes) (s : Stage) → length (Mtf.Stream.encode_all vs s).0 ≡ length vs
unfolding Mtf.Stream.encode_all
length-encode_all [] s = refl
length-encode_all (v ∷ vs) s = ap suc (length-encode_all vs (Mtf.encode v s).1)

-- The tests behind the loop come to the last one.
pub finished :
    (m pindex : ℕ) (written : Bytes) (c : Coder) (f : Bytes × Coder)
    → flush_run c ≡ ok f
    → (finish m (within m written c) >>= λ coded. ok (with_header pindex coded))
      ≡ ok (
          framed m pindex f.1.rle0.num_values_emitted
            (written ++ f.0 ++ (RangeCoder.flush f.1.rc).0))
unfolding finish with_header
finished m pindex written c f run =
    let last : Bytes = (RangeCoder.flush f.1.rc).0 in
    elim (Bool-cases (leb m (length written))) [
      | inl one ↦
          let two = leb_longer m written f.0 one in
          let three = leb_longer m (written ++ f.0) last two in rw (one, three) refl
      | inr one ↦ elim (Bool-cases (leb m (length (written ++ f.0)))) [
        | inl two ↦
            let three = leb_longer m (written ++ f.0) last two in rw (one, run, two, three) refl
        | inr two ↦ elim (Bool-cases (leb m (length (written ++ f.0 ++ last)))) [
          | inl three ↦ rw (one, run, two, three) refl
          | inr three ↦ rw (one, run, two, three) refl
        ]
      ]
    ]

pub three_bytes-u32 : (x : ℕ) → three_bytes (u32 x) ≡ three_bytes x
three_bytes-u32 x =
    let high : u8 (u32 x / 65536) ≡ u8 (x / 65536) = omega arith in
    let middle : u8 (u32 x / 256) ≡ u8 (x / 256) = omega arith in
    let small : u8 (u32 x) ≡ u8 x = omega arith in rw (high, middle, small) refl

-- What is returned is the number of bytes, and less than the length of the block.
pub framed_sizes :
    (count pindex values : ℕ) (stream : Bytes)
    → let r =
        if leb count header_size
        then nothing
        else framed (count - header_size) pindex values stream in
      (r.size ≡ length r.output) × ((r.size ≡ 0) ⊎ (r.size < count))
framed_sizes count pindex values stream = elim (Bool-cases (leb count header_size)) [
  | inl short ↦ rw short (refl, inl refl)
  | inr long ↦ elim (Bool-cases (leb (count - header_size) (length stream))) [
    | inl full ↦ rw (long, full) (refl, inl refl)
    | inr fits ↦ rw (long, fits) (omega arith, inr (ground arith))
  ]
]
