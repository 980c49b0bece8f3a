-- ===== src/Compress/Mtf.antt =====
-- src/rdxcompression/rdx_comp_mtf.hpp and rdx_comp_mtf.cpp: the move-to-front stage.
-- An array of 256 bytes is a list; the encoder's array maps a symbol to its rank, the decoder's
-- maps a rank to its symbol. A symbol is a byte, so an index is below 256.
pub mod Loops
pub mod Inverse
pub mod Stream
use rdx.Base.{
  ℕ, zero, suc, ◌+◌, ◌-◌, Bool, true, false, not, ◌&&◌, ◌||◌, List, [], ◌∷◌, map, ltb, ◌==◌,
  if◌then◌else◌, get_or, set, u8, range_from,
}

abbrev pub at : List ℕ → ℕ → ℕ
at xs i = get_or xs i 0

-- `template<int TVariant>`: which of the three rules the coder uses
pub data Variant : Type 0 where
  variant0 variant1 variant2 : Variant

-- `for i: if(indexes[i] < result) indexes[i]++`
unfoldable pub raise_below : ℕ → List ℕ → List ℕ
raise_below result indexes = map (λ x. if ltb x result then u8 (x + 1) else x) indexes

-- `for i: if(indexes[i] && indexes[i] < result) indexes[i]++`
unfoldable pub raise_between : ℕ → List ℕ → List ℕ
raise_between result indexes =
    map (λ x. if not (x == 0) && ltb x result then u8 (x + 1) else x) indexes

-- `for i: if(!indexes[i]) { indexes[i] = 1; break; }`
unfoldable pub demote_first : List ℕ → List ℕ
demote_first [] = []
demote_first (x ∷ xs) = if x == 0 then 1 ∷ xs else x ∷ demote_first xs

-- `TVariant == 1 || last != 0`; only asked of variants 1 and 2
abbrev pub promotes : Variant → ℕ → Bool
promotes variant0 last = true
promotes variant1 last = true
promotes variant2 last = not (last == 0)

-- The three bodies of `Write`: the rank of `original`, and the new array.
unfoldable pub write0 : ℕ → List ℕ → ℕ × List ℕ
unfolding raise_below
write0 original indexes =
    let result = at indexes original in (result, set (raise_below result indexes) original 0)

unfoldable pub write12 : Variant → ℕ → List ℕ → ℕ → ℕ × List ℕ
unfolding raise_between demote_first
write12 v original indexes last =
    let result = at indexes original in
    (
      result,
      if result == 1
          then if promotes v last then set (demote_first indexes) original 0 else indexes
          else if not (result == 0)
          then set (raise_between result indexes) original 1
          else indexes,
    )

unfoldable pub write : Variant → ℕ → List ℕ → ℕ → ℕ × List ℕ
unfolding write0 write12
write variant0 original indexes last = write0 original indexes
write variant1 original indexes last = write12 variant1 original indexes last
write variant2 original indexes last = write12 variant2 original indexes last

-- `for(i = n; i >= 1; i--) indexes[i] = indexes[i-1]`
unfoldable pub shift_up : ℕ → List ℕ → List ℕ
shift_up zero indexes = indexes
shift_up (suc n) indexes = shift_up n (set indexes (suc n) (at indexes n))

-- The three bodies of `Read`: the symbol at the rank `original`, and the new array.
unfoldable pub read0 : ℕ → List ℕ → ℕ × List ℕ
unfolding shift_up
read0 original indexes =
    let result = at indexes original in (result, set (shift_up original indexes) 0 result)

unfoldable pub read12 : Variant → ℕ → List ℕ → ℕ → ℕ × List ℕ
unfolding shift_up
read12 v original indexes last =
    let result = at indexes original in
    (
      result,
      if original == 1
          then if promotes v last
            then set (set indexes 0 (at indexes 1)) 1 (at indexes 0)
            else indexes
          else if not (original == 0)
          then set (shift_up original indexes) 1 result
          else indexes,
    )

unfoldable pub read : Variant → ℕ → List ℕ → ℕ → ℕ × List ℕ
unfolding read0 read12
read variant0 original indexes last = read0 original indexes
read variant1 original indexes last = read12 variant1 original indexes last
read variant2 original indexes last = read12 variant2 original indexes last

-- `CMTFStage`
pub record Stage : Type 0 where
  pub indexes : List ℕ
  pub last : ℕ

unfoldable pub init : Stage
init = record { indexes = range_from 0 256; last = 0xff }

-- `MTF_VARIANT` of rdx_comp_config.hpp
abbrev pub mtf_variant : Variant
mtf_variant = variant2

-- `CMTFStage::Encode`, up to the symbol that it hands to the next stage
unfoldable pub encode : ℕ → Stage → ℕ × Stage
unfolding write
encode v s =
    let (coded, indexes) = write mtf_variant v s.indexes s.last in
    (coded, record { indexes = indexes; last = coded })
