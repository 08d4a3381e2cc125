-- ===== src/Common/Result.antt =====
-- Exceptions as values. The text of an exception's message is not modelled.
use mathlib.Core.Path.{◌≡◌, refl}
use mathlib.Core.Bool.{Bool, true, false}

-- `undefined` marks a run whose next step has undefined behaviour in C++ (signed overflow).
pub data Error : Type 0 where
  invalid_argument : Error
  overflow_error : Error
  domain_error : Error
  runtime_error : Error
  undefined : Error

-- What a function of the source returns or throws.
pub data Result {ℓ} (Value : Type ℓ) : Type ℓ where
  ok : Value → Result Value
  err : Error → Result Value

-- `if (!test) throw thrown;`
abbrev pub require : Bool → Error → Result (Unit {0})
require false thrown = err thrown
require true thrown = ok tt

-- The next statement, which an exception skips.
infixl 5 ◌>>=◌
abbrev pub ◌>>=◌ {ℓ κ} : {X : Type ℓ} {Y : Type κ} → Result X → (X → Result Y) → Result Y
err thrown >>= next = err thrown
ok x >>= next = next x

infixl 5 ◌>>◌
abbrev pub ◌>>◌ {ℓ} : {Y : Type ℓ} → Result (Unit {0}) → Result Y → Result Y
first >> next = first >>= λ unit. next

-- Where a sequence returns, its first statement does, and the rest goes on with its value.
pub >>=-eq-ok {ℓ κ} :
    {X : Type ℓ} {Y : Type κ} (first : Result X) (next : X → Result Y) {y : Y}
    → (first >>= next) ≡ ok y
    → (x : X) × (first ≡ ok x) × (next x ≡ ok y)
>>=-eq-ok (err thrown) next e = cc
>>=-eq-ok (ok x) next e = (x, refl, e)
