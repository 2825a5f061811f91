-- ===== src/Base/Throws.antt =====
-- Results of code that may throw, over an error type of the component's own.
use mathlib.Core.Path.{◌≡◌, refl}

pub data Outcome {ℓ κ} (E : Type κ) (A : Type ℓ) : Type (ℓ ⊔ κ) where
  ok : A → Outcome E A
  throw : E → Outcome E A

infixl 5 ◌>>=◌
abbrev pub ◌>>=◌ {ℓ κ μ} :
    {E : Type μ} {A : Type ℓ} {B : Type κ} → Outcome E A → (A → Outcome E B) → Outcome E B
ok a >>= f = f a
throw e >>= f = throw e

-- Inversion of a successful bind.
pub >>=-eq-ok {ℓ κ μ} :
    {E : Type μ} {A : Type ℓ} {B : Type κ} (start : Outcome E A) (next : A → Outcome E B)
    {result : B}
    → (start >>= next) ≡ ok result
    → (value : A) × (start ≡ ok value) × (next value ≡ ok result)
>>=-eq-ok (ok value) next done = (value, refl, done)
>>=-eq-ok (throw e) next done = cc
