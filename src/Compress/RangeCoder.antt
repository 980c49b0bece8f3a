-- ===== src/Compress/RangeCoder.antt =====
-- src/rdxcompression/rdx_comp_rangecoder.hpp and rdx_comp_rangecoder.cpp: the range coder.
-- The bytes that a call writes through `ppOut` are a list that it returns beside the new state; the
-- decoder's input is the list of the bytes left.
pub mod Value
pub mod Shift
pub mod Encode
pub mod Flush
use rdx.Base.{
  ℕ, zero, suc, ◌+◌, ◌-◌, ◌*◌, ◌/◌, ◌%◌, ◌^◌, Bool, true, false, not, ◌||◌, List, [], ◌∷◌, ◌++◌,
  ltb, ◌==◌, if◌then◌else◌, Option, none, some, Bytes, u8, u32, u64,
}

pub record RangeEnc : Type 0 where
  pub low : ℕ
  pub cache_size : ℕ
  pub range : ℕ
  pub cache : ℕ

unfoldable pub init : RangeEnc
init = record { low = 0; range = 0xffffffff; cache = 0; cache_size = 1 }

-- `do { *pOut++ = temp + carry; temp = 0xFF; } while(…)` for n rounds
unfoldable pub emit_pending : ℕ → ℕ → ℕ → Bytes
emit_pending zero temp carry = []
emit_pending (suc n) temp carry = u8 (temp + u8 carry) ∷ emit_pending n 0xff carry

-- The rounds of `while(--m_cacheSize != 0)`: the body runs first, so zero wraps.
abbrev pub rounds : ℕ → ℕ
rounds cache_size = if cache_size == 0 then 4294967296 else cache_size

-- `static_cast<rdxUInt32>(m_low & 0xffffffff) << 8`
abbrev pub next_low : ℕ → ℕ
next_low low = u32 (u32 low * 256)

unfoldable pub shift_low : RangeEnc → Bytes × RangeEnc
shift_low s =
    if not (u32 (s.low / 4294967296) == 0) || ltb (u32 s.low) 0xff000000
    then (
      emit_pending (rounds s.cache_size) s.cache (s.low / 4294967296),
      record {
        low = next_low s.low;
        cache_size = 1;
        range = s.range;
        cache = u8 (u32 s.low / 16777216);
      },
    )
    else ([], record s { cache_size = u32 (s.cache_size + 1); low = next_low s.low })

-- `while(m_range < 0x1000000) { m_range <<= 8; ShiftLow(ppOut); }` on fuel
unfoldable pub normalize : ℕ → RangeEnc → Option (Bytes × RangeEnc)
normalize zero s = none
normalize (suc fuel) s =
    let (bytes, t) = shift_low (record s { range = u32 (s.range * 256) }) in
    elim (ltb s.range 0x1000000) [
      | true ↦ elim (normalize fuel t) [ none ↦ none | some (rest, u) ↦ some (bytes ++ rest, u) ]
      | false ↦ some ([], s)
    ]

-- A range of at least one reaches 2 ^ 24 in three rounds.
abbrev pub fuel : ℕ
fuel = 4

-- `m_low += start * (m_range /= total); m_range *= size;`
unfoldable pub narrow : ℕ → ℕ → ℕ → RangeEnc → RangeEnc
narrow start size total s =
    let unit = s.range / total in
    record s { low = u64 (s.low + u32 (start * unit)); range = u32 (unit * size) }

unfoldable pub encode : ℕ → ℕ → ℕ → RangeEnc → Option (Bytes × RangeEnc)
encode start size total s = normalize fuel (narrow start size total s)

-- `Flush` with n calls left
unfoldable pub flush_rounds : ℕ → RangeEnc → Bytes × RangeEnc
flush_rounds zero s = ([], s)
flush_rounds (suc n) s =
    let (bytes, t) = shift_low s in let (rest, u) = flush_rounds n t in (bytes ++ rest, u)

unfoldable pub flush : RangeEnc → Bytes × RangeEnc
flush s = flush_rounds 5 s

pub record RangeDec : Type 0 where
  pub dec_range : ℕ
  pub code : ℕ

-- `m_code = (m_code << 8) | *pIn++`; `none` is a read past the input
unfoldable pub feed : ℕ → Bytes → Option (ℕ × Bytes)
feed code [] = none
feed code (b ∷ bs) = some (u32 (code * 256) + b, bs)

-- the loop of `CRangeDec::Init` with n rounds left
unfoldable pub feed_rounds : ℕ → ℕ → Bytes → Option (ℕ × Bytes)
unfolding feed
feed_rounds zero code bs = some (code, bs)
feed_rounds (suc n) code bs = elim (feed code bs) [
  | none ↦ none
  | some (c, rest) ↦ feed_rounds n c rest
]

unfoldable pub dec_init : Bytes → Option (RangeDec × Bytes)
dec_init bs = elim (feed_rounds 5 0 bs) [
  | none ↦ none
  | some (c, rest) ↦ some (record { code = c; dec_range = 0xffffffff }, rest)
]

-- `CRangeDec::Normalize` on fuel
unfoldable pub dec_normalize : ℕ → RangeDec → Bytes → Option (RangeDec × Bytes)
unfolding feed
dec_normalize zero d bs = none
dec_normalize (suc fuel) d bs = elim (ltb d.dec_range 0x1000000) [
  | true ↦ elim (feed d.code bs) [
    | none ↦ none
    | some (c, rest) ↦
        dec_normalize fuel (record { code = c; dec_range = u32 (d.dec_range * 256) }) rest
  ]
  | false ↦ some (d, bs)
]

unfoldable pub get_threshold : ℕ → RangeDec → ℕ × RangeDec
get_threshold total d =
    let unit = d.dec_range / total in (d.code / unit, record d { dec_range = unit })

unfoldable pub decode : ℕ → ℕ → RangeDec → Bytes → Option (RangeDec × Bytes)
decode start size d bs =
    dec_normalize fuel
      (record {
        code = u32 (d.code + 4294967296 - u32 (start * d.dec_range));
        dec_range = u32 (d.dec_range * size);
      })
      bs
