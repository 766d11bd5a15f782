-- ===== src/Prelude/Outcome.antt =====
-- A result, or the error that a function raises.
use mathlib.Core.Bool.{Bool, true, false}
use mathlib.Core.Path.{◌≡◌, refl}
use mathlib.Core.Logic.{◌⊎◌, inl, inr}

pub data Outcome {ℓ} (E A : Type ℓ) : Type ℓ where
  ok : A → Outcome E A
  raise : E → Outcome E A

infixl 10 ◌>>=◌
abbrev pub ◌>>=◌ {ℓ} : {E A B : Type ℓ} → Outcome E A → (A → Outcome E B) → Outcome E B
ok a >>= k = k a
raise e >>= k = raise e

-- To split on a computed outcome and keep the equation.
pub Outcome-cases {ℓ} :
    {E A : Type ℓ} (o : Outcome E A) → ((a : A) × (o ≡ ok a)) ⊎ ((e : E) × (o ≡ raise e))
Outcome-cases (ok a) = inl (a, refl)
Outcome-cases (raise e) = inr (e, refl)

abbrev pub is_ok {ℓ} : {E A : Type ℓ} → Outcome E A → Bool
is_ok (ok a) = true
is_ok (raise e) = false
