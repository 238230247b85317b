-- ===== src/Base/Outcome.antt =====
-- A Go function that returns a value and an error, as one of the two.
use mathlib.Core.Path.{◌≡◌, refl}
use mathlib.Core.Bool.{Bool, true, false}
use fbs_core.Base.Bools.{if◌then◌else◌}

pub data Result {ℓ} (E A : Type ℓ) : Type ℓ where
  ok : A → Result E A
  err : E → Result E A

infixl 5 ◌>>=◌
abbrev pub ◌>>=◌ {ℓ} : {E A B : Type ℓ} → Result E A → (A → Result E B) → Result E B
ok a >>= f = f a
err e >>= f = err e

-- What a chain that ends well went through.
pub >>=-ok {ℓ} :
    {E A B : Type ℓ} (first : Result E A) (second : A → Result E B) {answer : B}
    → (first >>= second) ≡ ok answer
    → (value : A) × (first ≡ ok value) × (second value ≡ ok answer)
>>=-ok (err e) second h = cc
>>=-ok (ok value) second h = (value, refl, h)

-- And of a successful check.
pub checked-ok {ℓ} :
    {E A : Type ℓ} (a : Bool) (e : E) (r : Result E A) {b : A}
    → (if a then err e else r) ≡ ok b
    → (a ≡ false) × (r ≡ ok b)
checked-ok true e r h = cc
checked-ok false e r h = (refl, h)
