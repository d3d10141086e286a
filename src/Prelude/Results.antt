-- ===== src/Prelude/Results.antt =====
-- A call that may raise: its value or the exception.
use mathlib.Core.Path.{◌≡◌, refl}
use mathlib.Core.Bool.{Bool, true, false}

pub data Result {ℓ κ} (E : Type κ) (A : Type ℓ) : Type (ℓ ⊔ κ) where
  returned : A → Result E A
  raised : E → Result E A

infixl 5 ◌>>=◌ ◌>>◌
abbrev pub ◌>>=◌ {ℓ μ κ} :
    {E : Type κ} {A : Type ℓ} {B : Type μ} → Result E A → (A → Result E B) → Result E B
returned a >>= f = f a
raised e >>= f = raised e

abbrev pub ◌>>◌ {ℓ κ} : {E : Type κ} {B : Type ℓ} → Result E (Unit {0}) → Result E B → Result E B
m >> k = m >>= λ _. k

-- `if test: raise e`
abbrev pub raise_if {κ} : {E : Type κ} → Bool → E → Result E (Unit {0})
raise_if true e = raised e
raise_if false e = returned tt

-- Inversion of a bind that returned.
pub >>=-eq-returned {ℓ μ κ} :
    {E : Type κ} {A : Type ℓ} {B : Type μ} (m : Result E A) (f : A → Result E B) {b : B}
    → (m >>= f) ≡ returned b
    → (a : A) × (m ≡ returned a) × (f a ≡ returned b)
>>=-eq-returned (returned a) f h = (a, refl, h)
>>=-eq-returned (raised e) f h = cc
