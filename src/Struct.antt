-- ===== src/Struct.antt =====
-- The part of Python's `struct` that the program uses: a format is a list of codes, and the values
-- of a format are a nested tuple with one place for each code.
pub mod RoundTrip
use wifipi.Prelude.{
  ℕ, ◌+◌, ◌-◌, ◌^◌, ◌≤◌, ◌<◌, ◌≡◌, Bool, List, [], ◌∷◌, ◌++◌, ◌&&◌, ltb, take, drop, replicate,
  length, if◌then◌else◌,
}
use wifipi.Prelude.Int.{ℤ, pos, negsuc, pos_part, neg_part}
use wifipi.Prelude.Result.{Result, ok, err, struct_error, ◌>>=◌}
use wifipi.Bytes.{Bytes, ByteOrder, to_uint, from_uint}

-- `raw n` is `<n>s`; `uint 1`, `uint 2`, `uint 4` are `B`, `H`, `I`; `int8` is `b`.
pub data Code : Type 0 where
  raw uint : ℕ → Code
  int8 : Code

abbrev pub Value : Code → Type 0
Value (raw n) = Bytes
Value (uint n) = ℕ
Value int8 = ℤ

abbrev pub Values : List Code → Type 0
Values [] = Unit
Values (c ∷ cs) = Value c × Values cs

abbrev pub size : Code → ℕ
size (raw n) = n
size (uint n) = n
size int8 = 1

-- `struct.calcsize`
abbrev pub calcsize : List Code → ℕ
calcsize [] = 0
calcsize (c ∷ cs) = size c + calcsize cs

-- two's complement of one byte
abbrev pub signed8 : ℕ → ℤ
signed8 b = if ltb b 128 then pos b else negsuc (255 - b)

abbrev pub unsigned8 : ℤ → ℕ
unsigned8 (pos n) = n
unsigned8 (negsuc n) = 255 - n

-- `<n>s` cuts or pads with zeros; an integer out of range is a `struct.error`.
unfoldable pub pack_one : ByteOrder → (c : Code) → Value c → Result Bytes
pack_one o (raw n) bs = ok (take n (bs ++ replicate n 0))
pack_one o (uint w) n = if ltb n (256 ^ w) then ok (to_uint o w n) else err struct_error
pack_one o int8 z =
    if ltb (pos_part z) 128 && ltb (neg_part z) 129 then ok (unsigned8 z ∷ []) else err struct_error

unfoldable pub unpack_one : ByteOrder → (c : Code) → Bytes → Value c
unpack_one o (raw n) bs = bs
unpack_one o (uint w) bs = from_uint o bs
unpack_one o int8 [] = pos 0
unpack_one o int8 (b ∷ bs) = signed8 b

-- `struct.pack`
unfoldable pub pack : ByteOrder → (fmt : List Code) → Values fmt → Result Bytes
pack o [] vs = ok []
pack o (c ∷ cs) vs = do bs ← pack_one o c vs.0; rest ← pack o cs vs.1; ok (bs ++ rest)

-- `struct.unpack_from(fmt, buf, 0)` on a buffer that is long enough, which its callers see to
unfoldable pub unpack : ByteOrder → (fmt : List Code) → Bytes → Values fmt
unpack o [] buf = tt
unpack o (c ∷ cs) buf = (unpack_one o c (take (size c) buf), unpack o cs (drop (size c) buf))
