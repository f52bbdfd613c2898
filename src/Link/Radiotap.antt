-- ===== src/Link/Radiotap.antt =====
-- The radiotap header, metadata between a node and its driver.
use Prim.Native.Nat.{bit_or}
use wifipi.Prelude.{
  ℕ, ◌+◌, ◌-◌, ◌*◌, ◌/◌, ◌%◌, ◌^◌, Bool, not, ◌||◌, Option, none, some, List, [], ◌∷◌, length, take,
  drop, get_or, ltb, leb, nat_beq, if◌then◌else◌,
}
use wifipi.Prelude.Int.{ℤ}
use wifipi.Prelude.Result.{Result, ok, err, value_error, struct_error, index_error, ◌>>=◌}
use wifipi.Bytes.{Bytes, little, from_uint}
use wifipi.Struct.{Code, uint, pack, unpack, signed8}

-- `x & (1 << k)`, as a test
abbrev pub bit : ℕ → ℕ → Bool
bit k x = nat_beq (x / 2 ^ k % 2) 1

-- "<BBHIBBHHH"
abbrev pub tx_fmt : List Code
tx_fmt = uint 1 ∷ uint 1 ∷ uint 2 ∷ uint 4 ∷ uint 1 ∷ uint 1 ∷ uint 2 ∷ uint 2 ∷ uint 2 ∷ []

abbrev pub tx_noack : ℕ
tx_noack = 0x0008

-- rate, channel, tx flags
abbrev pub tx_present : ℕ
tx_present = bit_or (bit_or (2 ^ 2) (2 ^ 3)) (2 ^ 15)

-- `_radiotap_tx`; the rate is in half Mbps, `int(rate_mbps * 2)`
unfoldable pub radiotap_tx : ℕ → ℕ → Result Bytes
radiotap_tx channel half_mbps =
    let freq : ℕ = if nat_beq channel 14 then 2484 else 2407 + channel * 5 in
    let chan_flags : ℕ = bit_or 0x0080 (if leb half_mbps 22 then 0x0020 else 0x0040) in
    pack little tx_fmt
      (0, (0, (16, (tx_present, (half_mbps, (0, (freq, (chan_flags, (tx_noack, tt)))))))))

-- an item of `_RT_FIELDS`: present bit, alignment, size
pub record Field : Type 0 where
  pub at_bit : ℕ
  pub align : ℕ
  pub size : ℕ

abbrev pub rt_fields : List Field
rt_fields =
    record { at_bit = 0; align = 8; size = 8 }
    ∷ record { at_bit = 1; align = 1; size = 1 }
    ∷ record { at_bit = 2; align = 1; size = 1 }
    ∷ record { at_bit = 3; align = 2; size = 4 }
    ∷ record { at_bit = 4; align = 2; size = 2 }
    ∷ record { at_bit = 5; align = 1; size = 1 }
    ∷ record { at_bit = 6; align = 1; size = 1 }
    ∷ []

-- the dictionary `meta`; the rate is in half Mbps
pub record Radio : Type 0 where
  pub flags : Option ℕ
  pub rate : Option ℕ
  pub freq : Option ℕ
  pub rssi : Option ℤ
  pub noise : Option ℤ

abbrev pub no_radio : Radio
no_radio = record { flags = none; rate = none; freq = none; rssi = none; noise = none }

-- "<BBHI"
abbrev pub rx_fmt : List Code
rx_fmt = uint 1 ∷ uint 1 ∷ uint 2 ∷ uint 4 ∷ []

-- The loop over the chained present words; `words` is the header from `off` to its end `it_len`, and
-- the result is the offset behind the last word.
unfoldable pub skip_words : ℕ → Bytes → ℕ → Result ℕ
skip_words present (a ∷ b ∷ c ∷ d ∷ words) off =
    let rest = skip_words (from_uint little (a ∷ b ∷ c ∷ d ∷ [])) words (off + 4) in
    if bit 31 present then rest else ok off
skip_words present words off = if bit 31 present then err value_error else ok off

-- `(off + align - 1) & ~(align - 1)`, for a power of 2
abbrev pub align_up : ℕ → ℕ → ℕ
align_up align off = (off + align - 1) / align * align

-- `buf[off]`
abbrev pub byte_at : Bytes → ℕ → Result ℕ
byte_at buf off = if ltb off (length buf) then ok (get_or buf off 0) else err index_error

-- `struct.unpack_from("<H", buf, off)` and `struct.unpack_from("<b", buf, off)`
abbrev pub uint16_at : Bytes → ℕ → Result ℕ
uint16_at buf off =
    if leb (off + 2) (length buf)
    then ok (from_uint little (take 2 (drop off buf)))
    else err struct_error

abbrev pub int8_at : Bytes → ℕ → Result ℤ
int8_at buf off =
    if leb (off + 1) (length buf) then ok (signed8 (get_or buf off 0)) else err struct_error

-- the item that a present bit announces, read at `off`
unfoldable pub set_field : ℕ → Bytes → ℕ → Radio → Result Radio
set_field k buf off m =
    if nat_beq k 1
    then (do v ← byte_at buf off; ok (record m { flags = some v }))
    else if nat_beq k 2
    then (do v ← byte_at buf off; ok (record m { rate = some v }))
    else if nat_beq k 3
    then (do v ← uint16_at buf off; ok (record m { freq = some v }))
    else if nat_beq k 5
    then (do v ← int8_at buf off; ok (record m { rssi = some v }))
    else if nat_beq k 6
    then (do v ← int8_at buf off; ok (record m { noise = some v }))
    else ok m

-- the loop over `_RT_FIELDS`
unfoldable pub read_fields : List Field → Bytes → ℕ → ℕ → ℕ → Radio → Result Radio
read_fields [] buf it_len first off m = ok m
read_fields (f ∷ fs) buf it_len first off m =
    let skipped = read_fields fs buf it_len first off m in
    let at = align_up f.align off in
    let taken =
      set_field f.at_bit buf at m >>= λ m'. read_fields fs buf it_len first (at + f.size) m' in
    if not (bit f.at_bit first) then skipped else if ltb it_len (at + f.size) then ok m else taken

unfoldable pub parse_radiotap : Bytes → Result (Radio × Bytes)
parse_radiotap buf =
    if ltb (length buf) 8
    then err value_error
    else let (ver, (pad, (it_len, (present, end)))) = unpack little rx_fmt buf in
      if ltb it_len 8 || ltb (length buf) it_len then err value_error else do
        off ← skip_words present (drop 8 (take it_len buf)) 8
        m ← read_fields rt_fields buf it_len present off no_radio
        ok (m, drop it_len buf)
