-- ===== src/Base/Result.antt =====
-- A computation that may end with an error.
use mathlib.Core.Option.{Option, none, some}
use mathlib.Core.Bool.{Bool, true, false}

pub data Result {ℓ κ} (E : Type ℓ) (A : Type κ) : Type (ℓ ⊔ κ) where
  ok : A → Result E A
  err : E → Result E A

infixl 10 ◌>>=◌
abbrev pub ◌>>=◌ {ℓ κ μ} :
    {E : Type ℓ} {A : Type κ} {B : Type μ} → Result E A → (A → Result E B) → Result E B
ok a >>= f = f a
err e >>= f = err e

module _ {ℓ κ} {E : Type ℓ} {A : Type κ} where
  abbrev pub or_raise : E → Option A → Result E A
  or_raise e none = err e
  or_raise e (some a) = ok a

  abbrev pub ensure : Bool → E → A → Result E A
  ensure true e a = ok a
  ensure false e a = err e
