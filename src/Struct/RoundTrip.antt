-- ===== src/Struct/RoundTrip.antt =====
-- `unpack` undoes `pack`, and `pack` undoes `unpack`.
use wifipi.Prelude.{
  ℕ, ◌^◌, ◌≤◌, ◌<◌, ◌≡◌, refl, sym, ap, ap₂, ◌∙◌, List, [], ◌∷◌, ◌++◌, take, drop, replicate,
  length, arith, lt→ltb, length-append, length-take, length-drop, take-add, take-append_of_length,
  drop-append_of_length, All-take, All-drop,
}
use mathlib.Core.List.{append_assoc}
use wifipi.Prelude.Int.{pos, negsuc, pos_part, neg_part}
use wifipi.Prelude.Result.{ok}
use wifipi.Bytes.{
  Bytes, AreBytes, ByteOrder, to_uint, length-to_uint, from_uint-to_uint, to_uint-from_uint,
  from_uint-lt,
}
use wifipi.Struct.{
  Code, raw, uint, int8, Value, Values, size, calcsize, unsigned8, pack_one, unpack_one, pack,
  unpack,
}

-- What a code can carry without loss.
abbrev pub Fits : (c : Code) → Value c → Type 0
Fits (raw n) bs = length bs ≡ n
Fits (uint w) n = n < 256 ^ w
Fits int8 z = (pos_part z < 128) × (neg_part z < 129)

abbrev pub FitsAll : (fmt : List Code) → Values fmt → Type 0
FitsAll [] vs = Unit
FitsAll (c ∷ cs) vs = Fits c vs.0 × FitsAll cs vs.1

-- The bytes that a value that fits becomes.
abbrev pub encode_one : ByteOrder → (c : Code) → Value c → Bytes
encode_one o (raw n) bs = bs
encode_one o (uint w) n = to_uint o w n
encode_one o int8 z = unsigned8 z ∷ []

abbrev pub encode : ByteOrder → (fmt : List Code) → Values fmt → Bytes
encode o [] vs = []
encode o (c ∷ cs) vs = encode_one o c vs.0 ++ encode o cs vs.1

pub pack_one-encode_one :
    (o : ByteOrder) (c : Code) (v : Value c) → Fits c v → pack_one o c v ≡ ok (encode_one o c v)
unfolding pack_one
pack_one-encode_one o (raw n) bs h = ap ok (take-append_of_length n bs (replicate n 0) h)
pack_one-encode_one o (uint w) n h = rw (lt→ltb _ _ h)
pack_one-encode_one o int8 z h = ground arith

length-encode_one :
    (o : ByteOrder) (c : Code) (v : Value c) → Fits c v → length (encode_one o c v) ≡ size c
length-encode_one o (raw n) bs h = h
length-encode_one o (uint w) n h = length-to_uint o w n
length-encode_one o int8 z h = refl

unpack_one-encode_one :
    (o : ByteOrder) (c : Code) (v : Value c) → Fits c v → unpack_one o c (encode_one o c v) ≡ v
unfolding unpack_one
unpack_one-encode_one o (raw n) bs h = refl
unpack_one-encode_one o (uint w) n h = from_uint-to_uint o w n h
unpack_one-encode_one o int8 (pos n) h = ground arith
unpack_one-encode_one o int8 (negsuc n) h = ground arith

pub pack-encode :
    (o : ByteOrder) (fmt : List Code) (vs : Values fmt)
    → FitsAll fmt vs
    → pack o fmt vs ≡ ok (encode o fmt vs)
unfolding pack
pack-encode o [] vs h = refl
pack-encode o (c ∷ cs) vs h = rw (pack_one-encode_one o c vs.0 h.0, pack-encode o cs vs.1 h.1)

pub length-encode :
    (o : ByteOrder) (fmt : List Code) (vs : Values fmt)
    → FitsAll fmt vs
    → length (encode o fmt vs) ≡ calcsize fmt
length-encode o [] vs h = refl
length-encode o (c ∷ cs) vs h = omega (
  arith,
  length-append (encode_one o c vs.0) (encode o cs vs.1),
  length-encode_one o c vs.0 h.0,
  length-encode o cs vs.1 h.1,
)

pub unpack-encode :
    (o : ByteOrder) (fmt : List Code) (vs : Values fmt) (rest : Bytes)
    → FitsAll fmt vs
    → unpack o fmt (encode o fmt vs ++ rest) ≡ vs
unfolding unpack
unpack-encode o [] vs rest h = refl
unpack-encode o (c ∷ cs) vs rest h =
    let here = encode_one o c vs.0 in
    let n = length-encode_one o c vs.0 h.0 in
    rw (
      append_assoc here (encode o cs vs.1) rest,
      take-append_of_length (size c) here (encode o cs vs.1 ++ rest) n,
      drop-append_of_length (size c) here (encode o cs vs.1 ++ rest) n,
      unpack_one-encode_one o c vs.0 h.0,
      unpack-encode o cs vs.1 rest h.1,
    )

-- What is read from bytes fits, and is written back as those bytes.
one_byte : (bs : Bytes) → length bs ≡ 1 → AreBytes bs → (b : ℕ) × (bs ≡ b ∷ []) × (b < 256)
one_byte [] h a = absurd (omega arith)
one_byte (b ∷ []) h a = (b, refl, a.0)
one_byte (b ∷ c ∷ bs) h a = absurd (omega arith)

unpack_one-Fits :
    (o : ByteOrder) (c : Code) (bs : Bytes)
    → length bs ≡ size c
    → AreBytes bs
    → Fits c (unpack_one o c bs)
unfolding unpack_one
unpack_one-Fits o (raw n) bs h a = h
unpack_one-Fits o (uint w) bs h a = rw (← h) (from_uint-lt o bs a)
unpack_one-Fits o int8 bs h a = let (b, e, lt) = one_byte bs h a in rw e (ground arith)

encode_one-unpack_one :
    (o : ByteOrder) (c : Code) (bs : Bytes)
    → length bs ≡ size c
    → AreBytes bs
    → encode_one o c (unpack_one o c bs) ≡ bs
unfolding unpack_one
encode_one-unpack_one o (raw n) bs h a = refl
encode_one-unpack_one o (uint w) bs h a = rw (← h) (to_uint-from_uint o bs a)
encode_one-unpack_one o int8 bs h a = let (b, e, lt) = one_byte bs h a in rw e (ground arith)

pub unpack-FitsAll :
    (o : ByteOrder) (fmt : List Code) (buf : Bytes)
    → calcsize fmt ≤ length buf
    → AreBytes buf
    → FitsAll fmt (unpack o fmt buf)
unfolding unpack
unpack-FitsAll o [] buf h a = tt
unpack-FitsAll o (c ∷ cs) buf h a = (
  unpack_one-Fits o c (take (size c) buf) (omega (arith, length-take (size c) buf))
      (All-take (λ b. b < 256) (size c) buf a),
  unpack-FitsAll o cs (drop (size c) buf) (omega (arith, length-drop (size c) buf))
      (All-drop (λ b. b < 256) (size c) buf a),
)

pub encode-unpack :
    (o : ByteOrder) (fmt : List Code) (buf : Bytes)
    → calcsize fmt ≤ length buf
    → AreBytes buf
    → encode o fmt (unpack o fmt buf) ≡ take (calcsize fmt) buf
unfolding unpack
encode-unpack o [] buf h a = refl
encode-unpack o (c ∷ cs) buf h a =
    ap₂ ◌++◌
      (encode_one-unpack_one o c (take (size c) buf) (omega (arith, length-take (size c) buf))
        (All-take (λ b. b < 256) (size c) buf a))
      (encode-unpack o cs (drop (size c) buf) (omega (arith, length-drop (size c) buf))
        (All-drop (λ b. b < 256) (size c) buf a))
    ∙ sym (take-add (size c) (calcsize cs) buf)
