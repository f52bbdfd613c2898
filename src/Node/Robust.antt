-- ===== src/Node/Robust.antt =====
-- No frame makes a node fail, or breaks its tables.
use wifipi.Prelude.{
  ◌≢◌, ◌+◌, ◌^◌, ◌<◌, ◌≡◌, refl, Option, none, some, true, list_eq, pair_eq, inl, inr, arith,
  nat_beq, length, Bool-cases,
}
use wifipi.Prelude.Int.{ℤ, pos_part, neg_part}
use wifipi.Prelude.Result.{Error, Result, ok, err, and_then}
use wifipi.Prelude.Time.{Micros}
use wifipi.Bytes.{Bytes, AreBytes}
use wifipi.Frame.{Packet, from_bytes, type_announce}
use wifipi.Frame.Wire
use wifipi.Frame.Relay.{relayed_lem}
use wifipi.Frame.Received.{from_bytes-refused, from_bytes-IsValid}
use wifipi.Identity.{Announce, Crypto, parse_announce}
use wifipi.Flood.{Flooder, Readings, Verdict, on_pending, on_other, schedule, on_receive}
use wifipi.Flood.Verdicts
use wifipi.Flood.Verdicts.{on_receive-own, on_receive_pending, on_receive_other, on_receive-IsValid}
use wifipi.Routes.Entry.{Name, stored_rssi, whole_seconds}
use wifipi.Routes.Cold.{Extras, no_extras}
use wifipi.Routes.Table.{
  RouteTable, Heard, buffer_cold, put_hot, commit, settle_later, learn_worse, learn_close, learn,
  Clocks,
}
use wifipi.Routes.Table.Hot
use wifipi.Routes.Table.Candidates.{AllFit, learn-AllFit}
use wifipi.Flood.Relays.{AllSendable, on_receive-AllSendable}
use wifipi.Routes.Table.Learn.{HeardInRange, learn_effect}
use wifipi.Link.{Meta}
use wifipi.Node.{
  is_bad_frame, Node, heard_from, extras_of, learn_from, is_first_time, is_own_verdict,
  handle_announce, classify, handle,
}

-- What the radio and the clock give: a MAC of 6 bytes, a signal of one signed byte, a time before
-- 2106.
pub record InRange (now : Clocks) (meta : Meta) : Type 0 where
  pub mac : length meta.src_mac ≡ 6
  pub rssi_high : pos_part (stored_rssi meta.radio.rssi) < 128
  pub rssi_low : neg_part (stored_rssi meta.radio.rssi) < 129
  pub seen_fits : whole_seconds now.wall < 2 ^ 32

pub record IsValid (n : Node) : Type 0 where
  pub flooder : Verdicts.IsValid n.flooder
  pub routes : Hot.IsValid n.routes
  pub room : 0 < n.routes.max_hot
  pub hops_fit : n.hop_limit < 65536
  pub id_length : length n.node_id ≡ 16
  pub relays : AllSendable n.flooder.pending
  pub candidates : AllFit n.routes.pending

module _ (uniform : Micros → Micros → Micros) (r : Readings) (p : Packet) (rssi : Option ℤ)
    (f : Flooder) (v : Wire.IsValid p) where
  on_receive-not_err : (e : Error) → (on_receive uniform r p rssi f).0 ≢ err e
  unfolding on_receive on_pending on_other schedule
  on_receive-not_err e h = ground (arith, relayed_lem p v)

  on_receive-ok : (w : Verdict) × ((on_receive uniform r p rssi f).0 ≡ ok w)
  on_receive-ok = go (on_receive uniform r p rssi f).0 refl
    where
      go :
          (m : Result Verdict)
          → (on_receive uniform r p rssi f).0 ≡ m
          → (w : Verdict) × ((on_receive uniform r p rssi f).0 ≡ ok w)
      go (ok w) h = (w, h)
      go (err e) h = absurd (on_receive-not_err e h)

learn-max_hot :
    (now : Clocks) (id : Bytes) (h : Heard) (t : RouteTable)
    → (learn now id h t).1.max_hot ≡ t.max_hot
unfolding learn learn_close learn_worse settle_later commit put_hot buffer_cold
learn-max_hot now id h t = ground arith

-- A result that is no error, on a valid node.
abbrev pub IsSafe : {A : Type 0} → Result A × Node → Type 0
IsSafe {A = A} (r, n) = (a : A) × (r ≡ ok a) × IsValid n

module _ (now : Clocks) (p : Packet) (meta : Meta) (i : InRange now meta) where
  learn_from-IsSafe :
      (extras : Extras) (n : Node) → IsValid n → IsSafe (learn_from now p meta extras n)
  unfolding learn_from
  learn_from-IsSafe extras n v =
      let h = heard_from n p meta extras in
      let fits : HeardInRange now h = record {
        mac = i.mac;
        hops_fit = omega (arith, v.hops_fit);
        rssi_high = i.rssi_high;
        rssi_low = i.rssi_low;
        seen_fits = i.seen_fits;
      } in
      let (verdict, answer, valid, effect) =
        learn_effect now p.src h n.routes fits v.routes v.room in
      let same = learn-max_hot now p.src h n.routes in
      (
        tt,
        rw (answer, and_then) refl,
        rw (answer, and_then)
            (record {
              flooder = v.flooder;
              routes = valid;
              room = omega (arith, same, v.room);
              hops_fit = v.hops_fit;
              id_length = v.id_length;
              relays = v.relays;
              candidates = learn-AllFit now p.src h n.routes fits v.candidates;
            }),
      )

  module _ (crypto : Crypto) (decode : Bytes → Name) where
    handle_announce-IsSafe :
        (verdict : Verdict) (n : Node)
        → IsValid n
        → IsSafe (handle_announce crypto decode now p meta verdict n)
    unfolding handle_announce
    handle_announce-IsSafe verdict n v = elim (Bool-cases (is_first_time verdict)) [
      | inl first ↦ rw (first, handle_announce) (parsed (parse_announce crypto p.src p.payload))
      | inr again ↦ elim (Bool-cases (is_own_verdict verdict)) [
        | inl mine ↦ rw (again, handle_announce, mine) (tt, refl, v)
        | inr other ↦ rw (again, handle_announce, other) (learn_from-IsSafe no_extras n v)
      ]
    ]
      where
        parsed :
            (m : Result Announce)
            → IsSafe {A = Unit} (elim m [
              | err e ↦
                  (ok tt, record n { stats = record n.stats { rejected = n.stats.rejected + 1 } })
              | ok info ↦ learn_from now p meta (extras_of crypto decode info) n
            ])
        parsed (err e) = (
          tt,
          refl,
          record {
            flooder = v.flooder;
            routes = v.routes;
            room = v.room;
            hops_fit = v.hops_fit;
            id_length = v.id_length;
            relays = v.relays;
            candidates = v.candidates;
          },
        )
        parsed (ok info) = learn_from-IsSafe (extras_of crypto decode info) n v

    classify-IsSafe :
        (verdict : Verdict) (n : Node)
        → IsValid n
        → IsSafe (classify crypto decode now p meta verdict n)
    unfolding classify
    classify-IsSafe verdict n v = elim (Bool-cases (nat_beq p.type type_announce)) [
      | inl announce ↦
          let (u, fine, valid) = handle_announce-IsSafe verdict n v in
          rw (announce, fine, and_then) (some p, refl, valid)
      | inr data_packet ↦ rw data_packet (some p, refl, v)
    ]

from_bytes-error :
    (frame : Bytes) (e : Error) → AreBytes frame → from_bytes frame ≡ err e → is_bad_frame e ≡ true
from_bytes-error frame e a h = elim (from_bytes-refused frame e a h) [
  | inl short ↦ rw short refl
  | inr (inl magic) ↦ rw magic refl
  | inr (inr version) ↦ rw version refl
]

-- Whatever bytes the radio hands up, `_handle` raises nothing and keeps a valid node valid, if the
-- MAC, the signal and the time are in range: its flooder, its hot table and its candidates keep their
-- invariants, the limit of the table and the node's hop limit theirs.
pub handle-IsSafe :
    (crypto : Crypto) (decode : Bytes → Name) (uniform : Micros → Micros → Micros) (at : Readings)
    (now : Clocks) (frame : Bytes) (meta : Meta) (n : Node)
    → AreBytes frame
    → InRange now meta
    → IsValid n
    → IsSafe (handle crypto decode uniform at now frame meta n)
unfolding handle
handle-IsSafe crypto decode uniform at now frame meta n a i v = go (from_bytes frame) refl
  where
    go :
        (m : Result Packet)
        → from_bytes frame ≡ m
        → IsSafe (handle crypto decode uniform at now frame meta n)
    go (err e) h = rw (h, handle, from_bytes-error frame e a h) (none, refl, v)
    go (ok p) h =
        let wire = from_bytes-IsValid frame p a h in
        let (verdict, answer) = on_receive-ok uniform at p meta.radio.rssi n.flooder wire in
        rw (h, handle, answer, and_then)
          (classify-IsSafe now p meta i crypto decode verdict _ (record {
            flooder = on_receive-IsValid uniform at p meta.radio.rssi n.flooder v.flooder;
            routes = v.routes;
            room = v.room;
            hops_fit = v.hops_fit;
            id_length = v.id_length;
            relays = on_receive-AllSendable uniform at p meta.radio.rssi n.flooder wire v.relays;
            candidates = v.candidates;
          }))
