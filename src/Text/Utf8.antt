-- ===== src/Text/Utf8.antt =====
-- `rdxEncodeUTF8Char` and `rdxDecodeUTF8Char` of src/rdx/rdx_utility.hpp. A character has as many
-- bits as RDX_CHAR_TYPE has, which is an argument; the last test of the decoder shifts an `int` by
-- this number, which is defined for less than 31. Where the operands of `|` have no bit in common, it
-- is written as a sum. `none` stands for rdxCHAR_Invalid, with which the decoder leaves pointer and
-- count as they are; `enforceMask` is set and not used.
pub mod Inverse
pub mod Sound
use rdx.Base.{
  ℕ, zero, suc, ◌+◌, ◌-◌, ◌*◌, ◌/◌, ◌%◌, ◌^◌, Bool, true, false, not, ◌&&◌, List, [], ◌∷◌, Option,
  none, some, ltb, leb, ◌==◌, if◌then◌else◌, length, Bytes, u32,
}
use rdx.Base.Run.{Run, ok, out_of_bounds, ◌>>=◌}

-- the first byte, and `extraBytes`
unfoldable pub lead : ℕ → ℕ × ℕ
lead c =
    if leb 0x4000000 c
    then (0xfc + c / 1073741824, 5)
    else if leb 0x200000 c
    then (0xf8 + c / 16777216, 4)
    else if leb 0x10000 c
    then (0xf0 + c / 262144, 3)
    else if leb 0x800 c
    then (0xe0 + c / 4096, 2)
    else if leb 0x80 c
    then (0xc0 + c / 64, 1)
    else (c, 0)

-- `((u32char >> bitOffset) & 0x3f) | 0x80`, for bit offsets from 6 * (n - 1) down to 0
unfoldable pub continuation : ℕ → ℕ → Bytes
continuation zero c = []
continuation (suc n) c = (0x80 + c / 64 ^ n % 64) ∷ continuation n c

unfoldable pub encode_utf8_char : ℕ → ℕ → Bytes
encode_utf8_char bits c =
    let u32char = c % 2 ^ bits % 0x80000000 in
    let (first, extra) = lead u32char in first ∷ continuation extra u32char

-- `extraBytes` and the bits of the first byte
unfoldable pub first_byte : ℕ → Option (ℕ × ℕ)
first_byte b =
    if b / 128 == 0
    then some (0, b % 128)
    else if b / 32 == 6
    then some (1, b % 32)
    else if b / 16 == 14
    then some (2, b % 16)
    else if b / 8 == 30
    then some (3, b % 8)
    else none

-- The loop over the further bytes, with n of them left; its result is `finalValue` and the bytes
-- behind.
unfoldable pub gather : ℕ → ℕ → Bytes → Run (Option (ℕ × Bytes))
gather zero value bytes = ok (some (value, bytes))
gather (suc n) value [] = out_of_bounds
gather (suc n) value (v ∷ vs) = elim (v / 64 == 2) [
  | false ↦ ok none
  | true ↦ gather n (u32 (value + v % 64 * 64 ^ n)) vs
]

-- the tests of `finalValue`
unfoldable pub accept : ℕ → ℕ × Bytes → Option (ℕ × Bytes)
accept bits (value, rest) =
    if ltb 0x10ffff value
    then none
    else if leb 0xd800 value && leb value 0xdfff
    then none
    else if leb (2 ^ bits) value
    then none
    else some (value, rest)

abbrev pub checked : ℕ → Option (ℕ × Bytes) → Option (ℕ × Bytes)
checked bits none = none
checked bits (some found) = accept bits found

-- behind the first byte
unfoldable pub decode_rest : ℕ → ℕ → ℕ → Bytes → Run (Option (ℕ × Bytes))
decode_rest bits extra value bytes =
    if ltb (length bytes) extra
    then ok none
    else (gather extra (u32 (value * 64 ^ extra)) bytes >>= λ found. ok (checked bits found))

abbrev pub decode_first : ℕ → Option (ℕ × ℕ) → Bytes → Run (Option (ℕ × Bytes))
decode_first bits none bytes = ok none
decode_first bits (some (extra, value)) bytes = decode_rest bits extra value bytes

-- The bytes at `*pData`, `*pAvailableBytes` of them.
unfoldable pub decode_utf8_char : ℕ → Bytes → Run (Option (ℕ × Bytes))
decode_utf8_char bits [] = out_of_bounds
decode_utf8_char bits (b ∷ bs) = decode_first bits (first_byte b) bs
