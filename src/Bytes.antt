-- ===== src/Bytes.antt =====
-- Byte strings as lists of numbers, and the unsigned integers that they spell: what
-- `int.from_bytes`, `int.to_bytes` and the integer codes of `struct` compute.
use native.Mathlib.Nat.{pow-suc}
use mathlib.Core.List.{reverse-reverse}
use wifipi.Prelude.{
  ℕ, zero, suc, ◌+◌, ◌*◌, ◌/◌, ◌%◌, ◌^◌, ◌<◌, ◌≡◌, refl, ap, sym, ◌∙◌, List, [], ◌∷◌, reverse,
  arith, length, All, All-reverse, length-reverse,
}

abbrev pub Bytes : Type 0
Bytes = List ℕ

-- every element is a byte
abbrev pub AreBytes : Bytes → Type 0
AreBytes = All (λ b. b < 256)

pub data ByteOrder : Type 0 where
  big little : ByteOrder

to_little : ℕ → ℕ → Bytes
to_little zero n = []
to_little (suc w) n = (n % 256) ∷ to_little w (n / 256)

from_little : Bytes → ℕ
from_little [] = 0
from_little (b ∷ bs) = b + 256 * from_little bs

-- the `w` bytes of a number; higher ones are dropped
unfoldable pub to_uint : ByteOrder → ℕ → ℕ → Bytes
unfolding to_little
to_uint big w n = reverse (to_little w n)
to_uint little w n = to_little w n

unfoldable pub from_uint : ByteOrder → Bytes → ℕ
unfolding from_little
from_uint big bs = from_little (reverse bs)
from_uint little bs = from_little bs

length-to_little : (w n : ℕ) → length (to_little w n) ≡ w
unfolding to_little
length-to_little zero n = refl
length-to_little (suc w) n = ap suc (length-to_little w (n / 256))

to_little-AreBytes : (w n : ℕ) → AreBytes (to_little w n)
unfolding to_little
to_little-AreBytes zero n = tt
to_little-AreBytes (suc w) n = (omega arith, to_little-AreBytes w (n / 256))

from_little-to_little : (w n : ℕ) → n < 256 ^ w → from_little (to_little w n) ≡ n
unfolding from_little to_little
from_little-to_little zero n h = omega arith
from_little-to_little (suc w) n h =
    let p : n < 256 ^ w * 256 = rw (← pow-suc 256 w) h in
    omega (arith, from_little-to_little w (n / 256) (omega arith))

to_little-from_little : (bs : Bytes) → AreBytes bs → to_little (length bs) (from_little bs) ≡ bs
unfolding from_little to_little
to_little-from_little [] h = refl
to_little-from_little (b ∷ bs) h =
    let r = from_little bs in
    let low : (b + 256 * r) % 256 ≡ b = omega arith in
    let high : (b + 256 * r) / 256 ≡ r = omega arith in rw (low, high, to_little-from_little bs h.1)

from_little-lt : (bs : Bytes) → AreBytes bs → from_little bs < 256 ^ length bs
unfolding from_little
from_little-lt [] h = omega arith
from_little-lt (b ∷ bs) h = rw (pow-suc 256 (length bs)) (omega (arith, from_little-lt bs h.1))

pub length-to_uint : (o : ByteOrder) (w n : ℕ) → length (to_uint o w n) ≡ w
unfolding to_uint
length-to_uint big w n = length-reverse (to_little w n) ∙ length-to_little w n
length-to_uint little w n = length-to_little w n

pub to_uint-AreBytes : (o : ByteOrder) (w n : ℕ) → AreBytes (to_uint o w n)
unfolding to_uint
to_uint-AreBytes big w n = All-reverse (λ b. b < 256) (to_little w n) (to_little-AreBytes w n)
to_uint-AreBytes little w n = to_little-AreBytes w n

-- A number that fits the width is read back.
pub from_uint-to_uint : (o : ByteOrder) (w n : ℕ) → n < 256 ^ w → from_uint o (to_uint o w n) ≡ n
unfolding from_uint to_uint
from_uint-to_uint big w n h =
    ap from_little (reverse-reverse (to_little w n)) ∙ from_little-to_little w n h
from_uint-to_uint little w n h = from_little-to_little w n h

-- Bytes that are read as a number are written back.
pub to_uint-from_uint :
    (o : ByteOrder) (bs : Bytes) → AreBytes bs → to_uint o (length bs) (from_uint o bs) ≡ bs
unfolding from_uint to_uint
to_uint-from_uint big bs h =
    ap (λ k. reverse (to_little k (from_little (reverse bs)))) (sym (length-reverse bs))
    ∙ ap reverse (to_little-from_little (reverse bs) (All-reverse (λ b. b < 256) bs h))
    ∙ reverse-reverse bs
to_uint-from_uint little bs h = to_little-from_little bs h

pub from_uint-lt : (o : ByteOrder) (bs : Bytes) → AreBytes bs → from_uint o bs < 256 ^ length bs
unfolding from_uint
from_uint-lt big bs h =
    rw (← length-reverse bs) (from_little-lt (reverse bs) (All-reverse (λ b. b < 256) bs h))
from_uint-lt little bs h = from_little-lt bs h
