-- ===== src/Identity/Keys.antt =====
-- The key file of a node: `save`, `load` and `load_or_create` of `Identity`.
pub mod Restart
use wifipi.Bytes.{Bytes}
use wifipi.Prelude.{
  drop, take, ◌*◌, length, nat_beq, none, not, some, if◌then◌else◌, ◌++◌, Option, list_eq,
}
use wifipi.Prelude.Result.{err, ok, Result, value_error}
use wifipi.Identity.{key_len}

-- the raw bytes of the two private keys, `_sign` and `_encrypt`
pub record PrivateKeys : Type 0 where
  pub sign_key : Bytes
  pub encrypt_key : Bytes

-- what `save` writes
unfoldable pub saved : PrivateKeys → Bytes
saved k = k.sign_key ++ k.encrypt_key

-- `load`, of what the file holds
unfoldable pub load : Bytes → Result PrivateKeys
load blob =
    if not (nat_beq (length blob) (key_len * 2))
    then err value_error
    else ok (record { sign_key = take key_len blob; encrypt_key = drop key_len blob })

-- `load_or_create`, of the file, none if there is none, and of the keys that `generate` draws
unfoldable pub load_or_create : PrivateKeys → Option Bytes → Result PrivateKeys × Option Bytes
load_or_create new (some blob) = (load blob, some blob)
load_or_create new none = (ok new, some (saved new))
