-- ===== src/Prelude/Result.antt =====
-- Exceptions as values, and methods that change an object and may raise.
use Prim.Native.Nat.{ℕ}

-- The exceptions that the modelled code raises, with what their messages show.
pub data Error : Type 0 where
  struct_error value_error index_error : Error
  os_error attribute_error type_error overflow_error : Error
  short_packet : ℕ → Error
  bad_magic : Error
  unsupported_version : ℕ → Error
  short_announce : ℕ → Error
  key_error wrong_node_id invalid_signature : Error

pub data Result {ℓ} (A : Type ℓ) : Type ℓ where
  ok : A → Result A
  err : Error → Result A

infixl 5 ◌>>=◌
abbrev pub ◌>>=◌ {ℓ κ} : {A : Type ℓ} {B : Type κ} → Result A → (A → Result B) → Result B
ok a >>= f = f a
err e >>= f = err e

-- One method call after another on a state that an exception leaves as it is.
abbrev pub and_then {ℓ κ μ} :
    {A : Type ℓ} {B : Type κ} {S : Type μ} → Result A × S → (A → S → Result B × S) → Result B × S
and_then (ok a, s) f = f a s
and_then (err e, s) f = (err e, s)
