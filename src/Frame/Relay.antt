-- ===== src/Frame/Relay.antt =====
-- Relaying: what a hop changes, and how far a packet can travel.
use mathlib.Core.List.{append-nil, append_assoc}
use wifipi.Struct.RoundTrip.{pack-encode}
use wifipi.Bytes.{length-to_uint, from_uint, big, to_uint, Bytes}
use wifipi.Prelude.Result.{◌>>=◌, ok, Result}
use wifipi.Prelude.{
  drop-append_of_length, drop-drop, take-append_of_length, ◌+◌, ap, ℕ, zero, suc, inr, inl, drop,
  Bool-cases, ltb, take, length-append, leb, if◌then◌else◌, none, length, ◌++◌, some, Option, arith,
  ◌≡◌, ◌-◌,
}
use wifipi.Frame.{magic, Packet, relayed, header_fmt, header_values, to_bytes}
use wifipi.Frame.Wire.{header_values-FitsAll, IsValid}

-- `n` relays in a row; `none` as soon as one of them must not send.
unfoldable pub relay_times : ℕ → Packet → Result (Option Packet)
relay_times zero p = ok (some p)
relay_times (suc n) p =
    relayed p >>= λ next. elim next [ none ↦ ok none | some q ↦ relay_times n q ]

-- A relay spends exactly one hop and changes nothing else, so the dedup key is that of the original;
-- at hop limit 0 there is no relay. On a valid packet the constructor's checks pass.
pub relayed_lem :
    (p : Packet)
    → IsValid p
    → relayed p ≡ (
        if ltb 0 p.hop_limit then ok (some (record p { hop_limit = p.hop_limit - 1 })) else ok none)
unfolding relayed
relayed_lem p v = ground arith

pub relayed-IsValid : (p : Packet) → IsValid p → IsValid (record p { hop_limit = p.hop_limit - 1 })
relayed-IsValid p v = record {
  version_ok = v.version_ok;
  type_fits = v.type_fits;
  flags_fit = v.flags_fit;
  hops_fit = omega (arith, v.hops_fit);
  id_length = v.id_length;
  id_bytes = v.id_bytes;
  src_length = v.src_length;
  dst_length = v.dst_length;
}

-- A valid packet with hop limit `h` can be relayed `n` times exactly if `n ≤ h`, and then it is the
-- original with the hop limit `h - n`: every packet stops after at most `h` relays.
pub relay_times_lem :
    (n : ℕ) (p : Packet)
    → IsValid p
    → relay_times n p ≡ (
        if leb n p.hop_limit then ok (some (record p { hop_limit = p.hop_limit - n })) else ok none)
unfolding relay_times
relay_times_lem zero p v = ground arith
relay_times_lem (suc n) p v = rw (relayed_lem p v) (elim (Bool-cases (ltb 0 p.hop_limit)) [
  | inl more ↦ rw more (
      rw (relay_times_lem n (record p { hop_limit = p.hop_limit - 1 }) (relayed-IsValid p v))
        (ground arith))
  | inr last ↦ rw last (ground arith)
])

-- The header before and behind the hop limit.
abbrev before_hops : Packet → Bytes
before_hops p =
    magic ++ (to_uint big 1 p.version ++ (to_uint big 1 p.type ++ to_uint big 1 p.flags))

abbrev behind_hops : Packet → Bytes
behind_hops p = to_uint big 4 (from_uint big p.packet_id) ++ (p.src ++ (p.dst ++ p.payload))

length-before_hops : (p : Packet) → length (before_hops p) ≡ 7
length-before_hops p = omega (
  arith,
  length-append (to_uint big 1 p.version) (to_uint big 1 p.type ++ to_uint big 1 p.flags),
  length-append (to_uint big 1 p.type) (to_uint big 1 p.flags),
  length-to_uint big 1 p.version,
  length-to_uint big 1 p.type,
  length-to_uint big 1 p.flags,
)

to_bytes_parts :
    (p : Packet)
    → IsValid p
    → to_bytes p ≡ ok (before_hops p ++ (to_uint big 2 p.hop_limit ++ behind_hops p))
unfolding to_bytes
to_bytes_parts p v =
    rw (pack-encode big header_fmt (header_values p) (header_values-FitsAll p v))
      (simp (append_assoc, append-nil))

replace_middle :
    (a h : ℕ) (front old new back : Bytes)
    → length front ≡ a
    → length old ≡ h
    → front ++ (new ++ back)
      ≡ take a (front ++ (old ++ back)) ++ (new ++ drop (a + h) (front ++ (old ++ back)))
replace_middle a h front old new back p q = rw (
  take-append_of_length a front (old ++ back) p,
  ← drop-drop a h (front ++ (old ++ back)),
  drop-append_of_length a front (old ++ back) p,
  drop-append_of_length h old back q,
)

-- On the air a valid packet, relayed, differs from the one received in bytes 7 and 8 only, the hop
-- limit, so a payload that was signed or encrypted arrives as it was sent.
relayed-to_bytes :
    (p q : Packet) (bs : Bytes)
    → IsValid p
    → relayed p ≡ ok (some q)
    → to_bytes p ≡ ok bs
    → to_bytes q ≡ ok (take 7 bs ++ (to_uint big 2 (p.hop_limit - 1) ++ drop 9 bs))
relayed-to_bytes p q bs v r w =
    let next = record p { hop_limit = p.hop_limit - 1 } in
    let same : q ≡ next = ground (arith, relayed_lem p v) in
    let sent : bs ≡ before_hops p ++ (to_uint big 2 p.hop_limit ++ behind_hops p) =
      ground (arith, to_bytes_parts p v) in
    rw (same, to_bytes_parts next (relayed-IsValid p v), sent)
      (ap ok (
        replace_middle 7 2 (before_hops p) (to_uint big 2 p.hop_limit)
          (to_uint big 2 (p.hop_limit - 1)) (behind_hops p) (length-before_hops p)
          (length-to_uint big 2 p.hop_limit)))
