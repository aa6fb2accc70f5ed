-- ===== src/Common/Result.antt =====
-- The pair (value, error) that a Go function returns, where one of the two is there.
use mathlib.Core.Path.{◌≡◌, refl}
use mathlib.Core.Logic.{◌⊎◌, inl, inr}

pub data Result {ℓ κ} (E : Type ℓ) (A : Type κ) : Type (ℓ ⊔ κ) where
  success : A → Result E A
  failure : E → Result E A

infixl 5 ◌>>=◌
abbrev pub ◌>>=◌ {ℓ κ ι} :
    {E : Type ℓ} {A : Type κ} {B : Type ι} → Result E A → (A → Result E B) → Result E B
success a >>= f = f a
failure e >>= f = failure e

pub Result-cases {ℓ κ} :
    {E : Type ℓ} {A : Type κ} (r : Result E A)
    → ((e : E) × (r ≡ failure e)) ⊎ ((a : A) × (r ≡ success a))
Result-cases (failure e) = inl (e, refl)
Result-cases (success a) = inr (a, refl)
