-- ===== src/Prelude/Outcome.antt =====
-- What a method returns or raises. A method that changes its object is a function of the object's
-- state into an outcome and the new state, which a raise keeps too.
use mathlib.Core.Path.{◌≡◌, refl}
use mathlib.Core.Option.{Option, none, some}

pub data Result {ℓ κ} (E : Type ℓ) (A : Type κ) : Type (ℓ ⊔ κ) where
  ok : A → Result E A
  err : E → Result E A

infixl 5 ◌>>=◌ ◌>>◌
abbrev pub ◌>>=◌ {ℓ κ μ} :
    {E : Type ℓ} {A : Type κ} {B : Type μ} → Result E A → (A → Result E B) → Result E B
err e >>= next = err e
ok a >>= next = next a

-- The same where only an error of the first counts.
abbrev pub ◌>>◌ {ℓ μ} : {E : Type ℓ} {B : Type μ} → Result E (Unit {0}) → Result E B → Result E B
check >> next = check >>= λ _. next

pub >>=-eq-ok {ℓ κ μ} :
    {E : Type ℓ} {A : Type κ} {B : Type μ} (check : Result E A) (next : A → Result E B) {result : B}
    → (check >>= next) ≡ ok result
    → (value : A) × (check ≡ ok value) × (next value ≡ ok result)
>>=-eq-ok (err e) next h = absurd (cc)
>>=-eq-ok (ok value) next h = (value, refl, h)

-- The same for a computation that may have no result.
abbrev pub and_then {ℓ κ} : {A : Type ℓ} {B : Type κ} → Option A → (A → Option B) → Option B
and_then none f = none
and_then (some a) f = f a
