-- ===== src/Identity/Tests.antt =====
-- The announces with a hash and signatures that are easy to compute.
use wifipi.Prelude.{
  Option, ◌≢◌, some, ◌⊎◌, ◌≡◌, ◌↔◌, refl, [], ◌∷◌, ◌++◌, replicate, length, ◌==◌, list_eq, eq_refl,
}
use wifipi.Prelude.Result.{value_error, err, ok}
use wifipi.Bytes.{Bytes}
use wifipi.Identity.{Crypto, Announce, identity, build_announce, parse_announce}
use wifipi.Identity.Keys.{PrivateKeys, load_or_create}
use wifipi.Identity.Keys.Restart.{load_or_create_lem}
use wifipi.Identity.Announces.{IsSigned, parse_announce-ok_iff, parse_announce-build_announce}

-- a signature is 64 times the length of the data
abbrev toy : Crypto
toy = record {
  sha256 = λ k. k;
  sign = λ k d. replicate 64 (length d);
  verifies = λ k s d. s == replicate 64 (length d);
}

abbrev sign_pub : Bytes
sign_pub = replicate 32 1

abbrev encrypt_pub : Bytes
encrypt_pub = replicate 32 2

-- what a node with these keys announces under the name "a"
abbrev payload : Bytes
payload = sign_pub ++ (encrypt_pub ++ (replicate 10 3 ++ (replicate 64 91 ++ 97 ∷ [])))

abbrev announce : Announce
announce = record {
  node_id = replicate 16 1;
  sign_pub = sign_pub;
  encrypt_pub = encrypt_pub;
  app_data = 97 ∷ [];
}

parse_announce-build_announce_example :
    let i = identity toy [] sign_pub encrypt_pub in
    parse_announce toy i.node_id (build_announce toy (replicate 10 3) (97 ∷ []) i)
    ≡ ok (record announce { node_id = i.node_id })
parse_announce-build_announce_example =
    parse_announce-build_announce toy [] sign_pub encrypt_pub (replicate 10 3) (97 ∷ []) refl refl
      refl (λ d. refl) (λ d. eq_refl (replicate 64 (length d)))

parse_announce-ok_iff_example :
    (parse_announce toy (replicate 16 1) payload ≡ ok announce)
    ↔ IsSigned toy (replicate 16 1) payload announce
parse_announce-ok_iff_example = parse_announce-ok_iff toy (replicate 16 1) payload announce

abbrev keys : PrivateKeys
keys = record { sign_key = replicate 32 1; encrypt_key = replicate 32 2 }

-- the file of an earlier start
abbrev key_file : Option Bytes
key_file = some (replicate 64 5)

load_or_create_lem_example :
    let (r, file') = load_or_create keys key_file in
    ((k : PrivateKeys) × (r ≡ ok k)
      × ((later : PrivateKeys) → load_or_create later file' ≡ (ok k, file')))
    ⊎ ((blob : Bytes) × (key_file ≡ some blob)
        × (length blob ≢ 64)
        × (r ≡ err value_error)
        × (file' ≡ key_file))
load_or_create_lem_example = load_or_create_lem keys key_file refl refl
