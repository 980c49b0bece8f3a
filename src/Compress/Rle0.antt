-- ===== src/Compress/Rle0.antt =====
-- src/rdxcompression/rdx_comp_rle.hpp and rdx_comp_rle.cpp: runs of rank zero.
-- A call of `smodel.Encode` is a symbol in the list that an operation returns beside the new state,
-- in the order of the calls.
pub mod Digits
pub mod Stream
use rdx.Base.{
  ℕ, zero, suc, ◌+◌, ◌-◌, ◌/◌, ◌%◌, ◌^◌, Bool, true, false, not, List, [], ◌∷◌, ◌++◌, ◌==◌,
  if◌then◌else◌, Bytes, u16, u32, length,
}

pub record Rle0 : Type 0 where
  pub in_run : Bool
  pub run_length : ℕ
  pub num_values_emitted : ℕ

unfoldable pub init : Rle0
init = record { in_run = false; run_length = 0; num_values_emitted = 0 }

-- `x & (1 << i)`, as 0 or 1
abbrev pub bit : ℕ → ℕ → ℕ
bit x i = (x / 2 ^ i) % 2

-- `for(i = …; i < 30; i++) if(x & (1 << i)) bits = i;` with n rounds left
unfoldable pub top_bit : ℕ → ℕ → ℕ → ℕ → ℕ
top_bit zero i x bits = bits
top_bit (suc n) i x bits = top_bit n (i + 1) x (if bit x i == 1 then i else bits)

-- `while(bits) { bits--; … }`
unfoldable pub emit_bits : ℕ → ℕ → List ℕ
emit_bits zero x = []
emit_bits (suc bits) x = (if bit x bits == 1 then 1 else 0) ∷ emit_bits bits x

-- the symbols of a run, once `m_runLength` has been incremented
unfoldable pub run_symbols : ℕ → List ℕ
unfolding top_bit emit_bits
run_symbols run_length = emit_bits (top_bit 29 1 run_length 0) run_length

-- `m_numValuesEmitted` behind the same loop, which increments it in each round
unfoldable pub count_bits : ℕ → ℕ → ℕ
count_bits zero num_values = num_values
count_bits (suc bits) num_values = count_bits bits (u32 (num_values + 1))

unfoldable pub flush : Rle0 → List ℕ × Rle0
flush s =
    if s.in_run
    then (let run_length = u32 (s.run_length + 1) in
        (
          run_symbols run_length,
          record {
            in_run = false;
            run_length = 0;
            num_values_emitted = count_bits (top_bit 29 1 run_length 0) s.num_values_emitted;
          },
        ))
    else ([], s)

unfoldable pub encode : ℕ → Rle0 → List ℕ × Rle0
encode p s =
    if not (p == 0)
    then (let (symbols, t) = flush s in
        (
          symbols ++ u16 (p + 1) ∷ [],
          record t { num_values_emitted = u32 (t.num_values_emitted + 1) },
        ))
    else ([], record s { in_run = true; run_length = u32 (s.run_length + 1) })

-- The calls that the loop of `R5CompressBlock` makes, with the `Flush` behind it.
unfoldable pub encode_all : Bytes → Rle0 → List ℕ × Rle0
encode_all [] s = flush s
encode_all (p ∷ ps) s = let (xs, t) = encode p s in let (ys, u) = encode_all ps t in (xs ++ ys, u)
