-- ===== src/Compress/Model/Classes.antt =====
-- Which counter stands for a symbol.
use rdx.Base.{
  ℕ, ◌+◌, ◌-◌, ◌^◌, ◌<◌, ◌≡◌, refl, Bool, true, ◌&&◌, pass_below, pass_below-at, arith, ltb, ◌==◌,
  if◌then◌else◌,
}
use rdx.Compress.Model.{at, counts, Class, classify}

-- The symbol that a class stands for: runs 0 and 1, rank 1, or 2 ^ m + k for counter k of model m,
-- plus one.
unfoldable pub symbol_of : Class → ℕ
symbol_of c = if c.second_model == 0 then c.first_sym else 2 ^ c.second_model + c.second_sym + 1

pub record IsClass (c : Class) : Type 0 where
  pub first_lt : c.first_sym < 10
  pub model_lt : c.second_model < 8
  pub follows : c.second_model ≡ c.first_sym - 2
  pub unset : c.second_model ≡ 0 → c.second_sym ≡ 0
  pub second_lt : 0 < c.second_model → c.second_sym < at counts c.second_model

class_check : ℕ → Bool
class_check sym =
    let c = classify sym in
    (symbol_of c == sym)
    && ltb c.first_sym 10
    && ltb c.second_model 8
    && (c.second_model == c.first_sym - 2)
    && (if c.second_model == 0
        then c.second_sym == 0
        else ltb c.second_sym (at counts c.second_model))

class_checked : (sym : ℕ) → sym < 257 → class_check sym ≡ true
unfolding class_check classify symbol_of pass_below
class_checked sym h = pass_below-at 257 class_check sym refl h

-- Every symbol below 257 is put in a class whose parts are in range, and the class determines the
-- symbol.
pub classify-IsClass :
    (sym : ℕ) → sym < 257 → IsClass (classify sym) × (symbol_of (classify sym) ≡ sym)
unfolding class_check
classify-IsClass sym h =
    let checked = class_checked sym h in
    (
      record {
        first_lt = ground arith;
        model_lt = ground arith;
        follows = ground arith;
        unset = λ p. ground arith;
        second_lt = λ p. ground arith;
      },
      ground arith,
    )
