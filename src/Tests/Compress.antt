-- ===== src/Tests/Compress.antt =====
-- src/rdxcompression: the theorems on the compression stages at concrete inputs.
use rdx.Base.{ℕ, ◌+◌, ◌*◌, ◌/◌, ◌^◌, ◌<◌, ◌≤◌, ◌≡◌, refl, [], ◌∷◌, some, arith, Bytes, AllBytes}
use rdx.Compress.Mtf
use rdx.Compress.Mtf.{Variant, variant2}
use rdx.Compress.Mtf.Inverse.{Inverse, read-write}
use rdx.Compress.Mtf.Stream.{encode_all, decode_all, init-Inverse, decode-encode}
use rdx.Compress.Rle0
use rdx.Compress.Rle0.Digits.{numeral, numeral_flushed}
use rdx.Compress.Rle0.Stream.{expand, expand-encode}
use rdx.Compress.Model
use rdx.Compress.Model.{ModelSet}
use rdx.Compress.Model.Totals.{IsValid, update-IsValid}
use rdx.Compress.Model.Fresh.{init-IsValid}
use rdx.Compress.Model.Classes.{IsClass, symbol_of, classify-IsClass}
use rdx.Compress.Model.Intervals.{AllIntervals, IsInterval, first_interval_tiles, encode-IsValid}
use rdx.Compress.Model.Collision.{encode_collides}
use rdx.Compress.RangeCoder
use rdx.Compress.RangeCoder.{RangeEnc}
use rdx.Compress.RangeCoder.Value.{value, whole, pending, Fits}
use rdx.Compress.RangeCoder.Shift.{Shifted, widen, shift_low-Shifted}
use rdx.Compress.RangeCoder.Encode.{IsReady, init-IsReady, encode_exact}
use rdx.Compress.RangeCoder.Flush.{flush_writes}

read-write_example :
    let w = Mtf.write variant2 200 Mtf.init.indexes 0 in
    let t = Mtf.read variant2 w.0 Mtf.init.indexes 0 in (t.0 ≡ 200) × (w.0 < 256) × Inverse w.1 t.1
read-write_example =
    read-write {ranks = Mtf.init.indexes} {order = Mtf.init.indexes} variant2 200 0 init-Inverse
      (omega arith)

abbrev block : Bytes
block = 7 ∷ 7 ∷ 0 ∷ 255 ∷ []

block-AllBytes : AllBytes block
block-AllBytes = ground arith

decode-encode_example :
    (decode_all (encode_all block Mtf.init).0 Mtf.init.indexes Mtf.init.last ≡ block)
    × AllBytes (encode_all block Mtf.init).0
decode-encode_example = decode-encode block block-AllBytes

numeral_flushed_example : numeral 1 (Rle0.run_symbols 13) ≡ 13
numeral_flushed_example = numeral_flushed 13 (omega arith) (omega arith)

abbrev ranks : Bytes
ranks = 0 ∷ 0 ∷ 0 ∷ 9 ∷ 0 ∷ []

ranks-AllBytes : AllBytes ranks
ranks-AllBytes = ground arith

expand-encode_example : expand 1 (Rle0.encode_all ranks Rle0.init).0 ≡ ranks
expand-encode_example = expand-encode ranks ranks-AllBytes (omega arith)

update-IsValid_example : IsValid (Model.update_probabilities 0 3 Model.init)
update-IsValid_example = update-IsValid init-IsValid 0 (omega arith) 3 (omega arith)

classify-IsClass_example : IsClass (Model.classify 130) × (symbol_of (Model.classify 130) ≡ 130)
classify-IsClass_example = classify-IsClass 130 (omega arith)

encode-IsValid_example :
    IsValid (Model.encode 130 Model.init).1 × AllIntervals (Model.encode 130 Model.init).0
encode-IsValid_example = encode-IsValid 130 init-IsValid (omega arith)

encode_collides_example : (Model.encode 130 Model.init).0 ≡ (Model.encode 200 Model.init).0
unfolding Model.classify Model.classify_large
encode_collides_example =
    encode_collides 130 200 (omega arith) (omega arith) refl (omega arith) (omega arith)

first_interval_tiles_example :
    IsInterval (Model.first_interval 4 Model.init)
    × ((Model.first_interval 0 Model.init).start ≡ 0)
    × ((Model.first_interval (4 + 1) Model.init).start
        ≡ (Model.first_interval 4 Model.init).start + (Model.first_interval 4 Model.init).size)
    × ((Model.first_interval 9 Model.init).start + (Model.first_interval 9 Model.init).size
        ≡ (Model.first_interval 4 Model.init).total)
first_interval_tiles_example = first_interval_tiles init-IsValid 4 (omega arith)

-- a state in which the range has fallen below 2 ^ 24
abbrev tight : RangeEnc
tight = record { low = 0xff000000; cache_size = 1; range = 0x10000; cache = 3 }

tight-Fits : Fits tight
unfolding pending
tight-Fits = record {
  started = omega arith;
  byte = omega arith;
  low_lt = omega arith;
  room = omega arith;
}

shift_low-Shifted_example : Shifted 5 tight (RangeCoder.shift_low (widen tight))
shift_low-Shifted_example =
    shift_low-Shifted 5 tight tight-Fits (omega arith) (omega arith) (omega arith)

encode_exact_example :
    let s = RangeCoder.init in
    let unit = s.range / 120 in
    (out : Bytes × RangeEnc) × (k : ℕ) × (RangeCoder.encode 36 12 120 s ≡ some out)
    × (k ≤ 3)
    × (whole (value 0 out.0) out.1 ≡ 256 ^ k * (whole 0 s + 36 * unit))
    × (out.1.range ≡ 256 ^ k * (unit * 12))
    × (out.1.cache_size ≤ s.cache_size + k)
    × IsReady out.1
unfolding RangeCoder.init
encode_exact_example =
    encode_exact 36 12 120 RangeCoder.init init-IsReady (omega arith) (omega arith) (omega arith) 0
      (omega arith)

flush_writes_example : value 0 (RangeCoder.flush RangeCoder.init).0 ≡ whole 0 RangeCoder.init
unfolding RangeCoder.init
flush_writes_example = flush_writes 0 RangeCoder.init init-IsReady (omega arith)
