-- ===== src/Base/Result.antt =====
-- A Go function that returns a value and an error.
use mathlib.Core.Path.{◌≡◌, refl}
use mathlib.Core.Logic.{◌⊎◌, inl, inr}

pub data Result {ℓ κ} (E : Type ℓ) (A : Type κ) : Type (ℓ ⊔ κ) where
  ok : A → Result E A
  err : E → Result E A

infixl 5 ◌>>=◌
abbrev pub ◌>>=◌ {ℓ κ μ} :
    {E : Type ℓ} {A : Type κ} {B : Type μ} → Result E A → (A → Result E B) → Result E B
err e >>= next = err e
ok a >>= next = next a

-- To split on a computed result and keep the equation.
pub Result-cases {ℓ κ} :
    {E : Type ℓ} {A : Type κ} (r : Result E A) → ((a : A) × (r ≡ ok a)) ⊎ ((e : E) × (r ≡ err e))
Result-cases (ok a) = inl (a, refl)
Result-cases (err e) = inr (e, refl)

-- Inversion of a successful bind, for proofs where the parts stay shut.
pub >>=-eq-ok {ℓ κ μ} :
    {E : Type ℓ} {A : Type κ} {B : Type μ} (r : Result E A) (next : A → Result E B) {value : B}
    → (r >>= next) ≡ ok value
    → (got : A) × (r ≡ ok got) × (next got ≡ ok value)
>>=-eq-ok (err reason) next succeeds = cc
>>=-eq-ok (ok got) next succeeds = (got, refl, succeeds)
