-- ===== src/Frame/Wire.antt =====
-- The wire format: what `to_bytes` writes `from_bytes` reads, and the other way round.
use wifipi.Struct.{unpack, Values}
use wifipi.Prelude.{
  take-append-drop, drop, ltb→ge, inr, inl, list_beq_iff, ltb, Bool-cases, ◌^◌, ◌<◌, ◌≡◌, refl,
  subst, ◌++◌, length, arith, ge→ltb, length-append, drop-append_of_length,
}
use wifipi.Prelude.Equality.{list_beq}
use wifipi.Prelude.Result.{ok, ◌>>=◌}
use wifipi.Bytes.{
  from_uint-to_uint, Bytes, AreBytes, big, to_uint, from_uint, to_uint-from_uint, from_uint-lt,
}
use wifipi.Struct.RoundTrip.{
  encode-unpack, unpack-FitsAll, FitsAll, encode, pack-encode, length-encode, unpack-encode,
}
use wifipi.Frame.{magic, Packet, header_fmt, header_values, to_bytes, from_header, from_bytes}

-- A packet that the wire format can carry.
pub record IsValid (p : Packet) : Type 0 where
  pub version_ok : p.version ≡ 1
  pub type_fits : p.type < 256
  pub flags_fit : p.flags < 256
  pub hops_fit : p.hop_limit < 65536
  pub id_length : length p.packet_id ≡ 4
  pub id_bytes : AreBytes p.packet_id
  pub src_length : length p.src ≡ 16
  pub dst_length : length p.dst ≡ 16

packet_id_read_back :
    (p : Packet) → IsValid p → to_uint big 4 (from_uint big p.packet_id) ≡ p.packet_id
packet_id_read_back p v =
    subst (λ n. to_uint big n (from_uint big p.packet_id) ≡ p.packet_id) v.id_length
      (to_uint-from_uint big p.packet_id v.id_bytes)

pub header_values-FitsAll : (p : Packet) → IsValid p → FitsAll header_fmt (header_values p)
header_values-FitsAll p v =
    let id =
      subst (λ n. from_uint big p.packet_id < 256 ^ n) v.id_length
        (from_uint-lt big p.packet_id v.id_bytes) in
    (
      refl,
      (
        omega arith,
        (v.type_fits, (v.flags_fit, (v.hops_fit, (id, (v.src_length, (v.dst_length, tt)))))),
      ),
    )

-- The bytes of a valid packet.
pub wire_bytes : Packet → Bytes
wire_bytes p = encode big header_fmt (header_values p) ++ p.payload

pub to_bytes-IsValid : (p : Packet) → IsValid p → to_bytes p ≡ ok (wire_bytes p)
unfolding to_bytes wire_bytes
to_bytes-IsValid p v =
    rw (pack-encode big header_fmt (header_values p) (header_values-FitsAll p v)) refl

from_header-header_values :
    (p : Packet) → IsValid p → from_header (header_values p) p.payload ≡ ok p
unfolding from_header list_beq
from_header-header_values p v = ground (arith, packet_id_read_back p v)

-- Every packet that the format can carry is written without an error, and read back as it was.
pub from_bytes-to_bytes : (p : Packet) → IsValid p → (to_bytes p >>= from_bytes) ≡ ok p
unfolding to_bytes from_bytes
from_bytes-to_bytes p v =
    let fits = header_values-FitsAll p v in
    let header = encode big header_fmt (header_values p) in
    let n : length header ≡ 45 = length-encode big header_fmt (header_values p) fits in
    rw
      (
        pack-encode big header_fmt (header_values p) fits,
        ge→ltb (length (header ++ p.payload)) 45 (omega (arith, length-append header p.payload)),
        unpack-encode big header_fmt (header_values p) p.payload fits,
        drop-append_of_length 45 header p.payload n,
      )
      (from_header-header_values p v)

pub header_values-from_header :
    (vs : Values header_fmt) (payload : Bytes) (p : Packet)
    → FitsAll header_fmt vs
    → from_header vs payload ≡ ok p
    → (header_values p ≡ vs) × (p.payload ≡ payload)
unfolding from_header
header_values-from_header (m, (ver, (ptype, (flags, (hops, (pid, (src, (dst, end)))))))) payload p
      fits h =
    ground (arith, list_beq_iff m magic, from_uint-to_uint big 4 pid fits.1.1.1.1.1.0)

-- Whatever `from_bytes` accepts, `to_bytes` writes back byte for byte: no two byte strings are
-- read as one packet, and the header has no byte that is ignored.
pub to_bytes-from_bytes :
    (buf : Bytes) (p : Packet) → AreBytes buf → from_bytes buf ≡ ok p → to_bytes p ≡ ok buf
unfolding to_bytes from_bytes
to_bytes-from_bytes buf p a h = elim (Bool-cases (ltb (length buf) 45)) [
  | inl short ↦ absurd (ground arith)
  | inr enough ↦
      let long = ltb→ge (length buf) 45 enough in
      let fits = unpack-FitsAll big header_fmt buf long a in
      let (same, rest) =
        header_values-from_header (unpack big header_fmt buf) (drop 45 buf) p fits
          (rw enough at h) in
      rw (
        same,
        pack-encode big header_fmt (unpack big header_fmt buf) fits,
        encode-unpack big header_fmt buf long a,
        rest,
        take-append-drop 45 buf,
      )
]
