-- ===== src/Link.antt =====
-- beachedmesh/link.py: radiotap and 802.11 headers round a packet, as they are sent and received.
pub mod Radiotap
pub mod Reads
pub mod Received
pub mod Sent
mod Tests
use wifipi.Prelude.{
  ℕ, ◌-◌, Bool, true, false, not, ◌&&◌, ◌||◌, Option, none, some, List, [], ◌∷◌, ◌++◌, length, take,
  drop, get_or, replicate, ltb, leb, nat_beq, ◌==◌, list_eq, nat_eq, if◌then◌else◌,
}
use wifipi.Prelude.Result.{Error, value_error, Result, ok, err, ◌>>=◌}
use wifipi.Bytes.{Bytes, little}
use wifipi.Struct.{Code, raw, uint, pack}
use wifipi.Link.Radiotap.{Radio, radiotap_tx, parse_radiotap, bit}

abbrev pub broadcast_mac : Bytes
broadcast_mac = replicate 6 0xff

-- "BEACHD"
abbrev pub bssid : Bytes
bssid = 0x42 ∷ 0x45 ∷ 0x41 ∷ 0x43 ∷ 0x48 ∷ 0x44 ∷ []

abbrev pub fc_data : ℕ
fc_data = 0x08

abbrev pub dot11_hdr_len : ℕ
dot11_hdr_len = 24

-- "<BBH6s6s6sH"
abbrev pub dot11_fmt : List Code
dot11_fmt = uint 1 ∷ uint 1 ∷ uint 2 ∷ raw 6 ∷ raw 6 ∷ raw 6 ∷ uint 2 ∷ []

-- `_dot11` of a link with this hardware address
unfoldable pub dot11 : Bytes → Result Bytes
dot11 mac = pack little dot11_fmt (fc_data, (0, (0, (broadcast_mac, (mac, (bssid, (0, tt)))))))

-- the bytes that `send` hands to the socket
unfoldable pub send : Bytes → Bytes → Result Bytes
unfolding dot11
send mac packet_bytes = do rt ← radiotap_tx 1 22; hdr ← dot11 mac; ok (rt ++ (hdr ++ packet_bytes))

-- the dictionary that `recv` returns beside the packet
pub record Meta : Type 0 where
  pub radio : Radio
  pub raw_frame : Bytes
  pub radiotap : Bytes
  pub src_mac : Bytes
  pub dot11_header : Bytes
  pub fcs : Bytes

-- `meta.get("flags", 0) & F_FCS_AT_END`
abbrev pub has_fcs : Radio → Bool
has_fcs r = elim r.flags [ none ↦ bit 4 0 | some f ↦ bit 4 f ]

-- the frame and the checksum behind it
abbrev pub split_fcs : Radio → Bytes → Bytes × Bytes
split_fcs r frame =
    if has_fcs r && leb 4 (length frame)
    then (take (length frame - 4) frame, drop (length frame - 4) frame)
    else (frame, [])

-- what `recv` makes of a frame behind its radiotap header
unfoldable pub accept : Bytes → Radio → Bytes → Option (Bytes × Meta)
accept buf r frame0 =
    let (frame, fcs) = split_fcs r frame0 in
    if leb (length frame) dot11_hdr_len
    then none
    else if not (get_or frame 0 0 == fc_data) || not (take 6 (drop 16 frame) == bssid)
    then none
    else some (
      drop dot11_hdr_len frame,
      record {
        radio = r;
        raw_frame = buf;
        radiotap = take (length buf - length frame0) buf;
        src_mac = take 6 (drop 10 frame);
        dot11_header = take dot11_hdr_len frame;
        fcs = fcs;
      },
    )

-- `except ValueError`
abbrev pub is_value_error : Error → Bool
is_value_error value_error = true
is_value_error _ = false

-- `recv`, of what `sock.recv` returns, `none` for a timeout
unfoldable pub recv : Option Bytes → Result (Option (Bytes × Meta))
recv none = ok none
recv (some buf) = if nat_beq (length buf) 0 then ok none else elim (parse_radiotap buf) [
  | err e ↦ if is_value_error e then ok none else err e
  | ok (r, frame) ↦ ok (accept buf r frame)
]
