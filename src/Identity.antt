-- ===== src/Identity.antt =====
-- beachedmesh/identity.py: node ids, and the announces that are built and verified.
pub mod Announces
pub mod Keys
mod Tests
use wifipi.Prelude.{
  ℕ, ◌+◌, ◌*◌, Bool, not, length, take, drop, ◌++◌, ltb, ◌==◌, list_eq, if◌then◌else◌,
}
use wifipi.Prelude.Result.{Result, ok, err, short_announce, wrong_node_id, invalid_signature}
use wifipi.Bytes.{Bytes}
use wifipi.Frame.{id_len}

abbrev pub key_len : ℕ
key_len = 32

abbrev pub random_len : ℕ
random_len = 10

abbrev pub sig_len : ℕ
sig_len = 64

abbrev pub announce_min : ℕ
announce_min = key_len * 2 + random_len + sig_len

-- What the program uses of `hashlib` and `cryptography`: `sha256(k).digest()`, `sign` with a private
-- key, and whether `verify` of a signature and the data under a public key returns.
pub record Crypto : Type 0 where
  pub sha256 : Bytes → Bytes
  pub sign : Bytes → Bytes → Bytes
  pub verifies : Bytes → Bytes → Bytes → Bool

-- `sign_key` stands for the private key of the signatures
pub record Identity : Type 0 where
  pub sign_key : Bytes
  pub sign_pub : Bytes
  pub encrypt_pub : Bytes
  pub node_id : Bytes

-- what `parse_announce` returns
pub record Announce : Type 0 where
  pub node_id : Bytes
  pub sign_pub : Bytes
  pub encrypt_pub : Bytes
  pub app_data : Bytes

-- `_announce_signed_bytes`
abbrev pub signed_bytes : Bytes → Bytes → Bytes → Bytes → Bytes → Bytes
signed_bytes src sign_pub encrypt_pub random app_data =
    src ++ (sign_pub ++ (encrypt_pub ++ (random ++ app_data)))

module _ (c : Crypto) where
  unfoldable pub node_id_from_key : Bytes → Bytes
  node_id_from_key k = take id_len (c.sha256 k)

  -- `Identity.__init__`, given the public halves of the two keys
  unfoldable pub identity : Bytes → Bytes → Bytes → Identity
  identity sign_key sign_pub encrypt_pub = record {
    sign_key = sign_key;
    sign_pub = sign_pub;
    encrypt_pub = encrypt_pub;
    node_id = node_id_from_key sign_pub;
  }

  -- `random` is what `os.urandom(RANDOM_LEN)` returns
  unfoldable pub build_announce : Bytes → Bytes → Identity → Bytes
  build_announce random app_data i =
      let signed = signed_bytes i.node_id i.sign_pub i.encrypt_pub random app_data in
      i.sign_pub ++ (i.encrypt_pub ++ (random ++ (c.sign i.sign_key signed ++ app_data)))

  -- the two checks of `parse_announce`, behind the slicing
  unfoldable pub check_announce :
      (src sign_pub encrypt_pub random sig app_data : Bytes) → Result Announce
  check_announce src sign_pub encrypt_pub random sig app_data =
      if not (node_id_from_key sign_pub == src)
      then err wrong_node_id
      else if not (c.verifies sign_pub sig (signed_bytes src sign_pub encrypt_pub random app_data))
      then err invalid_signature
      else ok (record {
        node_id = src;
        sign_pub = sign_pub;
        encrypt_pub = encrypt_pub;
        app_data = app_data;
      })

  unfoldable pub parse_announce : Bytes → Bytes → Result Announce
  unfolding check_announce
  parse_announce src payload =
      if ltb (length payload) announce_min
      then err (short_announce (length payload))
      else let rest1 = drop key_len payload in
        let rest2 = drop key_len rest1 in
        let rest3 = drop random_len rest2 in
        check_announce src (take key_len payload) (take key_len rest1) (take random_len rest2)
          (take sig_len rest3) (drop sig_len rest3)
