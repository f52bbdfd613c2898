-- ===== src/Link/Sent.antt =====
-- The frames that `send` writes, and how `recv` reads them behind the radiotap header of the receiver.
use wifipi.Prelude.{
  nat_beq, ltb, ◌+◌, ◌-◌, ◌<◌, ◌≡◌, refl, ap, sym, ◌∙◌, some, true, false, [], ◌∷◌, ◌++◌, length,
  take, drop, leb, inl, inr, arith, Bool-cases, le→leb, gt→leb, length-append,
  take-append_of_length, drop-append_of_length, if◌then◌else◌,
}
use mathlib.Core.List.{append_assoc, append-nil}
use wifipi.Prelude.Result.{value_error, ok, err, ◌>>=◌}
use wifipi.Prelude.Equality.{list_beq}
use wifipi.Bytes.{Bytes, to_uint}
use wifipi.Struct.{pack, pack_one}
use wifipi.Link.Radiotap.{Radio, radiotap_tx, parse_radiotap}
use wifipi.Link.{Meta, broadcast_mac, bssid, dot11, send, has_fcs, split_fcs, accept, recv}

-- the 802.11 header of a node with this MAC
abbrev pub header : Bytes → Bytes
header mac = 0x08 ∷ 0 ∷ 0 ∷ 0 ∷ (broadcast_mac ++ (mac ++ (bssid ++ 0 ∷ 0 ∷ [])))

dot11-header : (mac : Bytes) → length mac ≡ 6 → dot11 mac ≡ ok (header mac)
unfolding dot11 pack pack_one to_uint
dot11-header mac h = rw (take-append_of_length 6 mac (0 ∷ 0 ∷ 0 ∷ 0 ∷ 0 ∷ 0 ∷ []) h) refl

-- The checksum that the flags announce: 4 bytes or none.
abbrev pub Matches : Radio → Bytes → Type 0
Matches r fcs = if has_fcs r then length fcs ≡ 4 else fcs ≡ []

-- the radiotap header of `radiotap_tx 1 22`
abbrev pub rt_bytes : Bytes
rt_bytes = 0 ∷ 0 ∷ 16 ∷ 0 ∷ 12 ∷ 128 ∷ 0 ∷ 0 ∷ 22 ∷ 0 ∷ 108 ∷ 9 ∷ 160 ∷ 0 ∷ 8 ∷ 0 ∷ []

rt_built : radiotap_tx 1 22 ≡ ok rt_bytes
unfolding radiotap_tx pack pack_one to_uint
rt_built = refl

split-Matches :
    (r : Radio) (body fcs : Bytes) → Matches r fcs → split_fcs r (body ++ fcs) ≡ (body, fcs)
split-Matches r body fcs h = elim (Bool-cases (has_fcs r)) [
  | inl present ↦
      let four : length fcs ≡ 4 = rw present at h in
      let n : length (body ++ fcs) ≡ length body + 4 =
        omega (arith, length-append body fcs, four) in
      let cut : length (body ++ fcs) - 4 ≡ length body = omega (arith, n) in
      let long : leb 4 (length (body ++ fcs)) ≡ true =
        le→leb 4 (length (body ++ fcs)) (omega (arith, n)) in
      rw
        (
          present,
          long,
          cut,
          take-append_of_length (length body) body fcs refl,
          drop-append_of_length (length body) body fcs refl,
        )
        refl
  | inr absent ↦ let gone : fcs ≡ [] = rw absent at h in rw (absent, gone, append-nil) refl
]

accept-header :
    (buf mac packet fcs : Bytes) (r : Radio)
    → length mac ≡ 6
    → 0 < length packet
    → Matches r fcs
    → accept buf r (header mac ++ (packet ++ fcs))
      ≡ some (
        packet,
        record {
          radio = r;
          raw_frame = buf;
          radiotap = take (length buf - length (header mac ++ (packet ++ fcs))) buf;
          src_mac = mac;
          dot11_header = header mac;
          fcs = fcs;
        },
      )
unfolding accept
accept-header buf mac packet fcs r six filled m =
    let split =
      ap (split_fcs r) (sym (append_assoc (header mac) packet fcs))
      ∙ split-Matches r (header mac ++ packet) fcs m in
    let tail = bssid ++ 0 ∷ 0 ∷ [] in
    let body = (mac ++ tail) ++ packet in
    let n14 : length (mac ++ tail) ≡ 14 = omega (arith, length-append mac tail, six) in
    let t14 = take-append_of_length 14 (mac ++ tail) packet n14 in
    let d14 = drop-append_of_length 14 (mac ++ tail) packet n14 in
    let t6 : take 6 body ≡ mac =
      ap (take 6) (append_assoc mac tail packet)
      ∙ take-append_of_length 6 mac (tail ++ packet) six in
    let d6 : drop 6 body ≡ tail ++ packet =
      ap (drop 6) (append_assoc mac tail packet)
      ∙ drop-append_of_length 6 mac (tail ++ packet) six in
    let long : leb (length (header mac ++ packet)) 24 ≡ false =
      gt→leb _ _ (omega (arith, length-append (mac ++ tail) packet, n14, filled)) in
    rw (split, accept, long, d6, t6, t14, d14) (unfold list_beq in refl)

parse_radiotap_empty :
    (buf : Bytes) → nat_beq (length buf) 0 ≡ true → parse_radiotap buf ≡ err value_error
unfolding parse_radiotap
parse_radiotap_empty buf h =
    let short : ltb (length buf) 8 ≡ true = ground arith in rw (short, parse_radiotap) refl

-- A frame with the header of `_dot11` behind any radiotap header that parses is delivered by `recv`:
-- the packet, of at least one byte, without the checksum that the flags announce, and the sender's MAC
-- of 6 bytes.
pub recv-header :
    (buf mac packet fcs : Bytes) (r : Radio)
    → length mac ≡ 6
    → 0 < length packet
    → Matches r fcs
    → parse_radiotap buf ≡ ok (r, header mac ++ (packet ++ fcs))
    → (meta : Meta) × (recv (some buf) ≡ ok (some (packet, meta)))
      × (meta.src_mac ≡ mac)
      × (meta.radio ≡ r)
      × (meta.fcs ≡ fcs)
unfolding recv
recv-header buf mac packet fcs r six filled m parsed =
    let meta : Meta = record {
      radio = r;
      raw_frame = buf;
      radiotap = take (length buf - length (header mac ++ (packet ++ fcs))) buf;
      src_mac = mac;
      dot11_header = header mac;
      fcs = fcs;
    } in
    elim (Bool-cases (nat_beq (length buf) 0)) [
      | inl empty ↦ absurd (cc (parse_radiotap_empty buf empty, parsed))
      | inr present ↦ (
        meta,
        rw (present, recv, parsed) (ap ok (accept-header buf mac packet fcs r six filled m)),
        refl,
        refl,
        refl,
      )
    ]

-- What `send` writes on the socket is its radiotap header and the frame that `recv-header` is about.
send-header :
    (mac packet : Bytes)
    → length mac ≡ 6
    → send mac packet ≡ ok (rt_bytes ++ (header mac ++ packet))
unfolding send
send-header mac packet six = rw (rt_built, ◌>>=◌, dot11-header mac six) refl
