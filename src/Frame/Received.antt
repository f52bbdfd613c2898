-- ===== src/Frame/Received.antt =====
-- The packets that come off the air.
use wifipi.Prelude.{
  ap, ◌⊎◌, ◌==◌, list_eq, nat_eq, get_or, ◌≡◌, ◌<◌, ◌∙◌, sym, subst, length, take, drop, All-take,
  All-drop, length-take, length-drop, arith, Bool-cases, inl, inr, ltb, ltb→ge,
}
use wifipi.Prelude.Result.{Error, short_packet, bad_magic, unsupported_version, ok, err}
use wifipi.Bytes.{Bytes, AreBytes, big}
use wifipi.Struct.{unpack}
use wifipi.Struct.RoundTrip.{FitsAll, unpack-FitsAll}
use wifipi.Frame.{Packet, magic, version, from_header, header_fmt, header_values, from_bytes}
use wifipi.Frame.Wire.{IsValid, header_values-from_header}
use wifipi.Frame.Fields.{
  from_bytes-ok_iff, from_bytes-HasFields, unpack_header, header_lengths, id_read_back,
}

header_fits :
    (buf : Bytes) (p : Packet)
    → AreBytes buf
    → from_bytes buf ≡ ok p
    → FitsAll header_fmt (header_values p)
unfolding from_bytes
header_fits buf p a h = elim (Bool-cases (ltb (length buf) 45)) [
  | inl short ↦ absurd (ground arith)
  | inr enough ↦
      let fits = unpack-FitsAll big header_fmt buf (ltb→ge (length buf) 45 enough) a in
      let (same, rest) =
        header_values-from_header (unpack big header_fmt buf) (drop 45 buf) p fits
          (rw enough at h) in
      subst (FitsAll header_fmt) (sym same) fits
]

-- Every packet that `from_bytes` reads meets the ranges of the wire format.
pub from_bytes-IsValid :
    (buf : Bytes) (p : Packet) → AreBytes buf → from_bytes buf ≡ ok p → IsValid p
from_bytes-IsValid buf p a h =
    let fields = from_bytes-HasFields buf p a h in
    let (long, magic_there, version_there) = (from_bytes-ok_iff buf a).0 (p, h) in
    let fits = header_fits buf p a h in
    record {
      version_ok = fields.at_4 ∙ version_there;
      type_fits = fits.1.1.0;
      flags_fit = fits.1.1.1.0;
      hops_fit = fits.1.1.1.1.0;
      id_length =
          omega (arith, ap length fields.at_9, length-take 4 (drop 9 buf), length-drop 9 buf, long);
      id_bytes =
          subst AreBytes (sym fields.at_9)
            (All-take (λ b. b < 256) 4 (drop 9 buf) (All-drop (λ b. b < 256) 9 buf a));
      src_length = fits.1.1.1.1.1.1.0;
      dst_length = fits.1.1.1.1.1.1.1.0;
    }

-- A byte string is refused for its length, its magic or its version, and for nothing else.
pub from_bytes-refused :
    (buf : Bytes) (e : Error)
    → AreBytes buf
    → from_bytes buf ≡ err e
    → (e ≡ short_packet (length buf))
      ⊎ ((e ≡ bad_magic) ⊎ (e ≡ unsupported_version (get_or buf 4 0)))
unfolding from_bytes from_header
from_bytes-refused buf e a h = elim (Bool-cases (ltb (length buf) 45)) [
  | inl short ↦ inl (ground arith)
  | inr enough ↦
      let long = ltb→ge (length buf) 45 enough in
      let body = unpack_header buf long in
      let lengths = header_lengths buf long in
      let id = id_read_back buf a long in
      let h' = rw (enough, body, id) at h in
      elim (Bool-cases (take 4 buf == magic)) [
        | inr other ↦ inr (inl (ground arith))
        | inl same ↦ elim (Bool-cases (get_or buf 4 0 == version)) [
          | inr other ↦ inr (inr (ground arith))
          | inl one ↦ absurd (ground arith)
        ]
      ]
]
