-- ===== src/Base/Failure.antt =====
-- src/error.rs: the errors of the crate, and the three ways a call can end: with a value, with an
-- error of `Result`, or with a panic. The texts that errors carry are not modelled.

use mathlib.Core.Path.{◌≡◌, ap, refl}

pub data Error : Type 0 where
  invalid_argument : Error
  rpc : Error
  master : Error
  tablet_server : Error
  io : Error
  serialization : Error
  version_mismatch : Error
  backoff : Error
  timed_out : Error
  cancelled : Error
  connection_error : Error
  negotiation_error : Error
  no_range_partition : Error

pub data Outcome {ℓ} (A : Type ℓ) : Type ℓ where
  panic : Outcome A
  err : Error → Outcome A
  ok : A → Outcome A

-- What runs after a call that returned.
module _ {ℓ κ} {A : Type ℓ} {B : Type κ} where
  infixl 5 ◌>>=◌
  abbrev pub ◌>>=◌ : Outcome A → (A → Outcome B) → Outcome B
  panic >>= next = panic
  err e >>= next = err e
  ok value >>= next = next value

module _ {ℓ} {A : Type ℓ} where
  abbrev pub value_or : A → Outcome A → A
  value_or d panic = d
  value_or d (err e) = d
  value_or d (ok value) = value

  pub ok-injective : (a b : A) → ok a ≡ ok b → a ≡ b
  ok-injective a b h = ap (value_or a) h

-- What a chain that succeeded went through.
pub >>=-eq_ok {ℓ κ} :
    {A : Type ℓ} {B : Type κ} (m : Outcome A) (next : A → Outcome B) (b : B)
    → (m >>= next) ≡ ok b
    → (a : A) × (m ≡ ok a) × (next a ≡ ok b)
>>=-eq_ok panic next b h = cc
>>=-eq_ok (err e) next b h = cc
>>=-eq_ok (ok a) next b h = (a, refl, h)
