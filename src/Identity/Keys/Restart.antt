-- ===== src/Identity/Keys/Restart.antt =====
-- A node keeps its keys.
use wifipi.Bytes.{Bytes}
use wifipi.Prelude.{
  none, arith, inr, drop, refl, take, Bool-cases, drop-append_of_length, inl, take-append_of_length,
  length-append, true, ◌≢◌, some, ◌++◌, ◌⊎◌, nat_beq, ◌≡◌, length, Option, list_eq,
}
use wifipi.Prelude.Result.{err, ok, value_error}
use wifipi.Identity.Keys.{PrivateKeys, saved, load, load_or_create}

load-saved :
    (k : PrivateKeys) → length k.sign_key ≡ 32 → length k.encrypt_key ≡ 32 → load (saved k) ≡ ok k
unfolding load saved
load-saved k s e =
    let n : nat_beq (length (k.sign_key ++ k.encrypt_key)) 64 ≡ true =
      rw (length-append k.sign_key k.encrypt_key, s, e) refl in
    rw
      (
        load,
        n,
        take-append_of_length 32 k.sign_key k.encrypt_key s,
        drop-append_of_length 32 k.sign_key k.encrypt_key s,
      )
      refl

-- A start of load_or_create answers with keys that every later start answers with again, whatever it
-- would draw, and that leave the file as it is, if the keys that are drawn have 32 bytes each; or there
-- is a file that does not have 64 bytes, and the start fails and leaves it.
pub load_or_create_lem :
    (new : PrivateKeys) (file : Option Bytes)
    → length new.sign_key ≡ 32
    → length new.encrypt_key ≡ 32
    → let (r, file') = load_or_create new file in
      ((k : PrivateKeys) × (r ≡ ok k)
        × ((later : PrivateKeys) → load_or_create later file' ≡ (ok k, file')))
      ⊎ ((blob : Bytes) × (file ≡ some blob)
          × (length blob ≢ 64)
          × (r ≡ err value_error)
          × (file' ≡ file))
unfolding load_or_create
load_or_create_lem new none s e = inl (new, refl, λ later. rw (load-saved new s e) refl)
load_or_create_lem new (some blob) s e = elim (Bool-cases (nat_beq (length blob) 64)) [
  | inl whole ↦
      let k : PrivateKeys = record { sign_key = take 32 blob; encrypt_key = drop 32 blob } in
      let loaded : load blob ≡ ok k = unfold load in rw whole refl in
      inl (k, loaded, λ later. rw loaded refl)
  | inr torn ↦ inr (blob, refl, λ h. ground arith, (unfold load in rw torn refl), refl)
]
