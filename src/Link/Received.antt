-- ===== src/Link/Received.antt =====
-- What `recv` hands up.
use wifipi.Prelude.{
  ◌&&◌, ◌-◌, ◌<◌, ◌≡◌, refl, subst, sym, not, ◌||◌, ◌==◌, list_eq, nat_eq, Option, none, some,
  false, length, take, drop, get_or, leb, nat_beq, inl, inr, All-take, All-drop, arith, Bool-cases,
  length-take, length-drop,
}
use wifipi.Prelude.Result.{Result, ok, err}
use wifipi.Bytes.{Bytes, AreBytes}
use wifipi.Link.Radiotap.{Radio, parse_radiotap}
use wifipi.Link.Reads.{FitsByte, Parsed, parse_radiotap-Parsed}
use wifipi.Link.{Meta, bssid, fc_data, split_fcs, has_fcs, accept, recv}

-- A packet of at least one byte, from a radio with a MAC of 6 bytes, at a signal of one signed byte.
abbrev pub IsDelivered : Option (Bytes × Meta) → Type 0
IsDelivered none = Unit
IsDelivered (some (packet, meta)) =
    AreBytes packet × (0 < length packet) × (length meta.src_mac ≡ 6) × FitsByte meta.radio.rssi

-- What the socket gives is bytes.
abbrev pub AreReceived : Option Bytes → Type 0
AreReceived none = Unit
AreReceived (some buf) = AreBytes buf

AreBytes-split_fcs : (r : Radio) (frame : Bytes) → AreBytes frame → AreBytes (split_fcs r frame).0
AreBytes-split_fcs r frame a = elim (Bool-cases (has_fcs r && leb 4 (length frame))) [
  | inl checked ↦ rw checked (All-take (λ b. b < 256) (length frame - 4) frame a)
  | inr unchecked ↦ rw unchecked a
]

accept-IsDelivered :
    (buf : Bytes) (r : Radio) (frame0 : Bytes)
    → AreBytes frame0
    → FitsByte r.rssi
    → IsDelivered (accept buf r frame0)
unfolding accept
accept-IsDelivered buf r frame0 a v =
    let frame = (split_fcs r frame0).0 in
    elim (Bool-cases (leb (length frame) 24)) [
      | inl short ↦ rw (short, accept) tt
      | inr long ↦
          elim (Bool-cases
            (not (get_or frame 0 0 == fc_data) || not (take 6 (drop 16 frame) == bssid))) [
              | inl foreign ↦ rw (long, accept, foreign) tt
              | inr ours ↦
                  let n : 24 < length frame = ground arith in
                  rw (long, accept, ours)
                    (
                      All-drop (λ b. b < 256) 24 frame (AreBytes-split_fcs r frame0 a),
                      omega (arith, n, length-drop 24 frame),
                      omega (arith, n, length-take 6 (drop 10 frame), length-drop 10 frame),
                      v,
                    )
            ]
    ]

-- `recv` raises nothing, whatever bytes the socket gives: it ignores them, or hands up a packet of at
-- least one byte with a MAC of 6 bytes and a signal of one signed byte.
pub recv-IsDelivered :
    (buf : Option Bytes)
    → AreReceived buf
    → (m : Option (Bytes × Meta)) × (recv buf ≡ ok m) × IsDelivered m
unfolding recv
recv-IsDelivered none a = (none, refl, tt)
recv-IsDelivered (some buf) a = elim (Bool-cases (nat_beq (length buf) 0)) [
  | inl empty ↦ (none, rw (empty, recv) refl, tt)
  | inr filled ↦ go (parse_radiotap buf) refl (parse_radiotap-Parsed buf a) filled
]
  where
    go :
        (r : Result (Radio × Bytes))
        → parse_radiotap buf ≡ r
        → Parsed buf r
        → nat_beq (length buf) 0 ≡ false
        → (m : Option (Bytes × Meta)) × (recv (some buf) ≡ ok m) × IsDelivered m
    go (err e) h p filled = (none, rw (filled, recv, h, p) refl, tt)
    go (ok (r, frame)) h (fits, (n, same)) filled = (
      accept buf r frame,
      rw (filled, recv, h) refl,
      accept-IsDelivered buf r frame (subst AreBytes (sym same) (All-drop (λ b. b < 256) n buf a))
          fits,
    )
