-- ===== src/Link/Reads.antt =====
-- The parser stays inside the header.
use wifipi.Prelude.{
  zero, suc, ℕ, ◌+◌, ◌≤◌, ◌<◌, ◌≡◌, refl, Option, none, some, List, [], ◌∷◌, length, take, drop,
  get_or, ltb, ◌||◌, inl, inr, All, arith, Bool-cases, ltb→ge,
}
use wifipi.Prelude.Int.{ℤ, pos_part, neg_part}
use wifipi.Prelude.Result.{Error, value_error, Result, ok, err, ◌>>=◌}
use wifipi.Bytes.{Bytes, AreBytes, little, from_uint}
use wifipi.Struct.{unpack, signed8}
use wifipi.Link.Radiotap.{
  Field, Radio, no_radio, rt_fields, rx_fmt, bit, align_up, skip_words, set_field, read_fields,
  parse_radiotap,
}

-- An item that is long enough for what is read of it.
abbrev IsSized : Field → Type 0
IsSized f = (1 ≤ f.size) × ((f.at_bit ≡ 3) → 2 ≤ f.size)

-- A signal that one signed byte can be.
abbrev pub FitsByte : Option ℤ → Type 0
FitsByte none = Unit
FitsByte (some z) = (pos_part z < 128) × (neg_part z < 129)

abbrev pub Succeeds {ℓ} : {A : Type ℓ} → (A → Type 0) → Result A → Type 0
Succeeds P (ok a) = P a
Succeeds P (err e) = ⊥

get_or-lt : (buf : Bytes) (off : ℕ) → AreBytes buf → get_or buf off 0 < 256
get_or-lt [] off a = omega arith
get_or-lt (x ∷ buf) zero a = a.0
get_or-lt (x ∷ buf) (suc off) a = get_or-lt buf off a.1

signed8-FitsByte : (b : ℕ) → b < 256 → FitsByte (some (signed8 b))
signed8-FitsByte b h = ground arith

set_field-Succeeds :
    (f : Field) (buf : Bytes) (off : ℕ) (m : Radio)
    → IsSized f
    → off + f.size ≤ length buf
    → AreBytes buf
    → FitsByte m.rssi
    → Succeeds (λ m'. FitsByte m'.rssi) (set_field f.at_bit buf off m)
unfolding set_field
set_field-Succeeds f buf off m s h a v =
    ground (arith, signed8-FitsByte (get_or buf off 0) (get_or-lt buf off a))

Succeeds->>= {ℓ κ} :
    {A : Type ℓ} {B : Type κ} (P : A → Type 0) (Q : B → Type 0) (r : Result A) (f : A → Result B)
    → Succeeds P r
    → ((a : A) → P a → Succeeds Q (f a))
    → Succeeds Q (r >>= f)
Succeeds->>= P Q (ok a) f p q = q a p
Succeeds->>= P Q (err e) f p q = p

read_fields-Succeeds :
    (fs : List Field) (buf : Bytes) (it_len first off : ℕ) (m : Radio)
    → All IsSized fs
    → it_len ≤ length buf
    → AreBytes buf
    → FitsByte m.rssi
    → Succeeds (λ m'. FitsByte m'.rssi) (read_fields fs buf it_len first off m)
unfolding read_fields
read_fields-Succeeds [] buf it_len first off m s h a v = v
read_fields-Succeeds (f ∷ fs) buf it_len first off m s h a v =
    elim (Bool-cases (bit f.at_bit first)) [
      | inr absent ↦
          rw (absent, read_fields) (read_fields-Succeeds fs buf it_len first off m s.1 h a v)
      | inl present ↦ elim (Bool-cases (ltb it_len (align_up f.align off + f.size))) [
        | inl short ↦ rw (present, read_fields, short) v
        | inr inside ↦
            rw (present, read_fields, inside)
              (Succeeds->>= (λ m'. FitsByte m'.rssi) (λ m'. FitsByte m'.rssi)
                (set_field f.at_bit buf (align_up f.align off) m)
                (λ m'. read_fields fs buf it_len first (align_up f.align off + f.size) m')
                (set_field-Succeeds f buf (align_up f.align off) m s.0
                  (omega (arith, ltb→ge it_len (align_up f.align off + f.size) inside, h)) a v)
                (λ m' w.
                  read_fields-Succeeds fs buf it_len first (align_up f.align off + f.size) m' s.1 h
                    a w))
      ]
    ]

skip_words-error :
    (present : ℕ) (words : Bytes) (off : ℕ) (e : Error)
    → skip_words present words off ≡ err e
    → e ≡ value_error
unfolding skip_words
skip_words-error present [] off e h = ground arith
skip_words-error present (a ∷ []) off e h = ground arith
skip_words-error present (a ∷ b ∷ []) off e h = ground arith
skip_words-error present (a ∷ b ∷ c ∷ []) off e h = ground arith
skip_words-error present (a ∷ b ∷ c ∷ d ∷ words) off e h = elim (Bool-cases (bit 31 present)) [
  | inl more ↦
      skip_words-error (from_uint little (a ∷ b ∷ c ∷ d ∷ [])) words (off + 4) e
        (rw (more, skip_words) at h)
  | inr last ↦ absurd (cc (rw (last, skip_words) at h))
]

-- What a parse of `buf` gives: a signal of one signed byte and a rest of `buf`, or `ValueError`.
abbrev pub Parsed : Bytes → Result (Radio × Bytes) → Type 0
Parsed buf (ok (m, rest)) = FitsByte m.rssi × ((n : ℕ) × (rest ≡ drop n buf))
Parsed buf (err e) = e ≡ value_error

rt_fields-IsSized : All IsSized rt_fields
rt_fields-IsSized = ground arith

Parsed-read_fields :
    (buf : Bytes) (it_len : ℕ) (m : Result Radio)
    → Succeeds (λ m'. FitsByte m'.rssi) m
    → Parsed buf (m >>= λ m'. ok (m', drop it_len buf))
Parsed-read_fields buf it_len (ok m) h = (h, (it_len, refl))
Parsed-read_fields buf it_len (err e) h = absurd h

-- `parse_radiotap` reads no byte behind the header, so it fails with `ValueError` alone; else the signal
-- that it reports is that of one signed byte, and it returns a rest of the buffer.
pub parse_radiotap-Parsed : (buf : Bytes) → AreBytes buf → Parsed buf (parse_radiotap buf)
unfolding parse_radiotap
parse_radiotap-Parsed buf a = elim (Bool-cases (ltb (length buf) 8)) [
  | inl short ↦ rw (short, parse_radiotap) refl
  | inr enough ↦ elim (Bool-cases (ltb it_len 8 || ltb (length buf) it_len)) [
    | inl bad ↦ rw (enough, parse_radiotap, bad) refl
    | inr good ↦
        rw (enough, parse_radiotap, good)
          (go (skip_words present (drop 8 (take it_len buf)) 8) refl (ground arith))
  ]
]
  where
    it_len : ℕ
    it_len = (unpack little rx_fmt buf).1.1.0

    present : ℕ
    present = (unpack little rx_fmt buf).1.1.1.0

    go :
        (r : Result ℕ)
        → skip_words present (drop 8 (take it_len buf)) 8 ≡ r
        → it_len ≤ length buf
        → Parsed buf (
            r >>= λ off.
            read_fields rt_fields buf it_len present off no_radio >>= λ m. ok (m, drop it_len buf))
    go (err e) h inside = skip_words-error present (drop 8 (take it_len buf)) 8 e h
    go (ok off) h inside =
        Parsed-read_fields buf it_len (read_fields rt_fields buf it_len present off no_radio) (
          read_fields-Succeeds rt_fields buf it_len present off no_radio rt_fields-IsSized inside a
            tt)
