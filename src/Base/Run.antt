-- ===== src/Base/Run.antt =====
-- The outcome of code that reads an array unchecked and loops on fuel.
use mathlib.Core.Path.{◌≡◌, refl}

pub data Run {ℓ} (A : Type ℓ) : Type ℓ where
  ok : A → Run A
  out_of_bounds : Run A
  out_of_fuel : Run A

infixl 5 ◌>>=◌
abbrev pub ◌>>=◌ {ℓ κ} : {A : Type ℓ} {B : Type κ} → Run A → (A → Run B) → Run B
ok a >>= f = f a
out_of_bounds >>= f = out_of_bounds
out_of_fuel >>= f = out_of_fuel

-- The laws of a monad, by the outcome of the first run.
pub bind_ok {ℓ} : {A : Type ℓ} (r : Run A) → (r >>= ok) ≡ r
bind_ok (ok a) = refl
bind_ok out_of_bounds = refl
bind_ok out_of_fuel = refl

pub bind_assoc {ℓ κ μ} :
    {A : Type ℓ} {B : Type κ} {C : Type μ} (r : Run A) (f : A → Run B) (g : B → Run C)
    → (r >>= f >>= g) ≡ (r >>= λ a. f a >>= g)
bind_assoc (ok a) f g = refl
bind_assoc out_of_bounds f g = refl
bind_assoc out_of_fuel f g = refl

pub bind_pointwise {ℓ κ} :
    {A : Type ℓ} {B : Type κ} (r : Run A) (f g : A → Run B)
    → ((a : A) → f a ≡ g a)
    → (r >>= f) ≡ (r >>= g)
bind_pointwise (ok a) f g h = h a
bind_pointwise out_of_bounds f g h = refl
bind_pointwise out_of_fuel f g h = refl
