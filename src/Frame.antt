-- ===== src/Frame.antt =====
-- beachedmesh/frame.py: the packet header, built, parsed and relayed.
pub mod Wire
pub mod Fields
pub mod Relay
pub mod Received
mod Tests
use wifipi.Prelude.{
  ℕ, zero, suc, ◌-◌, Bool, true, false, List, [], ◌∷◌, ◌++◌, ◌&&◌, ◌||◌, not, Option, none, some,
  ltb, leb, ◌==◌, nat_eq, list_eq, drop, replicate, length, if◌then◌else◌,
}
use wifipi.Prelude.Result.{
  Result, ok, err, value_error, short_packet, bad_magic, unsupported_version, ◌>>=◌,
}
use wifipi.Bytes.{Bytes, big, to_uint, from_uint}
use wifipi.Struct.{Code, raw, uint, Values, calcsize, pack, unpack}

abbrev pub magic : Bytes
magic = b'B' ∷ b'C' ∷ b'H' ∷ b'D' ∷ []

abbrev pub version : ℕ
version = 1

-- "!4sBBBHI16s16s"
abbrev pub header_fmt : List Code
header_fmt = raw 4 ∷ uint 1 ∷ uint 1 ∷ uint 1 ∷ uint 2 ∷ uint 4 ∷ raw 16 ∷ raw 16 ∷ []

abbrev pub header_len : ℕ
header_len = calcsize header_fmt

abbrev pub id_len : ℕ
id_len = 16

abbrev pub broadcast : Bytes
broadcast = replicate id_len 0xff

abbrev pub type_data : ℕ
type_data = 0x01

abbrev pub type_announce : ℕ
type_announce = 0x02

abbrev pub flag_no_ack : ℕ
flag_no_ack = 0x00

abbrev pub default_hop_limit : ℕ
default_hop_limit = 3

abbrev pub max_hop_limit : ℕ
max_hop_limit = 0xFFFF

pub record Packet : Type 0 where
  pub type : ℕ
  pub flags : ℕ
  pub hop_limit : ℕ
  pub packet_id : Bytes
  pub src : Bytes
  pub dst : Bytes
  pub payload : Bytes
  pub version : ℕ

-- `Packet.__init__`; `random` is what `os.urandom(4)` returns if no `packet_id` is given
unfoldable pub make :
    (src dst : Bytes) (ptype : ℕ) (payload : Bytes) (flags hop_limit : ℕ) (packet_id : Option Bytes)
    (ver : ℕ) (random : Bytes)
    → Result Packet
make src dst ptype payload flags hop_limit packet_id ver random =
    let id : Bytes = elim packet_id [ none ↦ random | some given ↦ given ] in
    if not (length src == id_len) || not (length dst == id_len)
    then err value_error
    else if not (length id == 4)
    then err value_error
    else ok (record {
      type = ptype;
      flags = flags;
      hop_limit = hop_limit;
      packet_id = id;
      src = src;
      dst = dst;
      payload = payload;
      version = ver;
    })

-- the arguments of `struct.pack` in `to_bytes`
abbrev pub header_values : Packet → Values header_fmt
header_values p = (
  magic,
  (
    p.version,
    (p.type, (p.flags, (p.hop_limit, (from_uint big p.packet_id, (p.src, (p.dst, tt)))))),
  ),
)

unfoldable pub to_bytes : Packet → Result Bytes
to_bytes p = do header ← pack big header_fmt (header_values p); ok (header ++ p.payload)

-- `from_bytes` behind `struct.unpack_from`
unfoldable pub from_header : Values header_fmt → Bytes → Result Packet
unfolding make
from_header (m, (ver, (ptype, (flags, (hops, (pid, (src, (dst, end)))))))) payload =
    if not (m == magic)
    then err bad_magic
    else if not (ver == version)
    then err (unsupported_version ver)
    else make src dst ptype payload flags hops (some (to_uint big 4 pid)) ver []

unfoldable pub from_bytes : Bytes → Result Packet
unfolding from_header
from_bytes buf =
    if ltb (length buf) header_len
    then err (short_packet (length buf))
    else from_header (unpack big header_fmt buf) (drop header_len buf)

-- the dedup identity
abbrev pub Key : Type 0
Key = Bytes × Bytes

abbrev pub key : Packet → Key
key p = (p.src, p.packet_id)

unfoldable pub is_broadcast : Packet → Bool
is_broadcast p = p.dst == broadcast

-- A copy with one hop spent; the constructor runs its checks again.
unfoldable pub relayed : Packet → Result (Option Packet)
unfolding make
relayed p = if leb p.hop_limit 0 then ok none else do
  clone ←
      make p.src p.dst p.type p.payload p.flags (p.hop_limit - 1) (some p.packet_id) p.version []
  ok (some clone)
