-- ===== src/Node/Loop/Invariant.antt =====
-- No turn of the loop makes a node fail, or breaks its tables.
use wifipi.Prelude.{
  ◌+◌, ◌^◌, ◌<◌, ◌≤◌, refl, Option, none, some, list_eq, pair_eq, List, [], ◌∷◌, inl, inr, arith,
  length, leb, All, Bool-cases,
}
use wifipi.Prelude.Result.{Result, ok, err, and_then}
use wifipi.Prelude.Dict.{Dict, remove, Distinct, Distinct-remove, length-remove-le}
use wifipi.Prelude.Time.{Micros}
use wifipi.Bytes.{Bytes}
use wifipi.Frame.{Packet}
use wifipi.Frame.Wire
use wifipi.Frame.Wire.{wire_bytes, to_bytes-IsValid}
use wifipi.Identity.{Crypto}
use wifipi.Flood.Due.{expired, after_due, due-after_due}
use wifipi.Flood.Balance.{due-IsValid}
use wifipi.Flood.Relays.{waiting-AllSendable, expired-All}
use wifipi.Routes.Entry.{stored_rssi, Name, whole_seconds}
use wifipi.Routes.Table.{Clocks}
use wifipi.Routes.Table.Candidates.{tick-IsTicked}
use wifipi.Routes.Table.Lookup.{remove_all, dead_ids, expire_table}
use wifipi.Link.{Meta}
use wifipi.Link.Reads.{FitsByte}
use wifipi.Link.Received.{AreReceived, IsDelivered, recv-IsDelivered}
use wifipi.Prelude.Int.{ℤ, pos_part, neg_part}
use wifipi.Node.{Node, handle}
use wifipi.Node.Robust.{IsValid, IsSafe, handle-IsSafe}
use wifipi.Node.Loop.{
  expire_every, Turn, send_relays, relay_due, announce_due, tick_routes, expire_due, handle_got,
  poll,
}
use wifipi.Node.Loop.Announce.{IsDraw, transmit_lem, announce_due-IsSafe}

send_relays-IsSafe :
    (ps : List Packet) (n : Node) → All Wire.IsValid ps → IsValid n → IsSafe (send_relays ps n)
unfolding send_relays
send_relays-IsSafe [] n a v = (tt, refl, v)
send_relays-IsSafe (p ∷ ps) n a v =
    rw (send_relays, transmit_lem p n a.0, and_then)
      (send_relays-IsSafe ps _ a.1 (record {
        flooder = v.flooder;
        routes = v.routes;
        room = v.room;
        hops_fit = v.hops_fit;
        id_length = v.id_length;
        relays = v.relays;
        candidates = v.candidates;
      }))

pub after_due-IsValid :
    (now : Micros) (n : Node) → IsValid n → IsValid (record n { flooder = after_due now n.flooder })
after_due-IsValid now n v =
    let valid = due-IsValid now n.flooder v.flooder in
    let same = due-after_due now n.flooder v.flooder.distinct in
    record {
      flooder = rw same at valid;
      routes = v.routes;
      room = v.room;
      hops_fit = v.hops_fit;
      id_length = v.id_length;
      relays = unfold after_due in waiting-AllSendable now n.flooder.pending v.relays;
      candidates = v.candidates;
    }

pub relay_due-IsSafe : (now : Micros) (n : Node) → IsValid n → IsSafe (relay_due now n)
unfolding relay_due
relay_due-IsSafe now n v =
    rw (relay_due, due-after_due now n.flooder v.flooder.distinct, and_then)
      (send_relays-IsSafe (expired now n.flooder.pending)
        (record n { flooder = after_due now n.flooder })
        (expired-All now n.flooder.pending v.relays) (after_due-IsValid now n v))

pub tick_routes-IsSafe :
    (now : Clocks) (n : Node)
    → IsValid n
    → whole_seconds now.wall < 2 ^ 32
    → IsSafe (tick_routes now n)
unfolding tick_routes
tick_routes-IsSafe now n v s =
    let (k, fine, valid, fit, limit) = tick-IsTicked now n.routes v.routes v.candidates v.room s in
    rw (tick_routes, fine, and_then)
      (
        tt,
        refl,
        record {
          flooder = v.flooder;
          routes = valid;
          room = rw limit v.room;
          hops_fit = v.hops_fit;
          id_length = v.id_length;
          relays = v.relays;
          candidates = fit;
        },
      )

Distinct-remove_all :
    (ids : List Bytes) (d : Dict Bytes Bytes)
    → Distinct d
    → Distinct (remove_all ids d) × (length (remove_all ids d) ≤ length d)
unfolding remove_all
Distinct-remove_all [] d u = (u, omega arith)
Distinct-remove_all (id ∷ ids) d u =
    let (v, n) = Distinct-remove_all ids (remove id d) (Distinct-remove id d u) in
    (v, omega (arith, n, length-remove-le id d))

pub expire_due-IsSafe : (turn : Turn) (n : Node) → IsValid n → IsSafe (expire_due turn n)
unfolding expire_due expire_table
expire_due-IsSafe turn n v = elim (Bool-cases (leb (n.last_expire + expire_every) turn.now)) [
  | inl ready ↦
      let (distinct, fewer) =
        Distinct-remove_all (dead_ids turn.expire_at n.routes.ttl n.routes.hot) n.routes.hot
          v.routes.distinct in
      rw (expire_due, ready)
        (
          tt,
          refl,
          record {
            flooder = v.flooder;
            routes = record {
              bounded = omega (arith, fewer, v.routes.bounded);
              distinct = distinct;
              candidates = v.routes.candidates;
            };
            room = v.room;
            hops_fit = v.hops_fit;
            id_length = v.id_length;
            relays = v.relays;
            candidates = v.candidates;
          },
        )
  | inr early ↦ rw (expire_due, early) (tt, refl, v)
]

-- What a turn reads beside its frame: the random bytes of a packet id, and times of 32 bits.
pub record IsTurn (turn : Turn) : Type 0 where
  pub draw : IsDraw turn.announce
  pub learn_fits : whole_seconds turn.learn_at.wall < 2 ^ 32
  pub tick_fits : whole_seconds turn.tick_at.wall < 2 ^ 32

IsSafe-and_then :
    {A B : Type 0} (r : Result A × Node) (f : A → Node → Result B × Node)
    → IsSafe r
    → ((a : A) (n : Node) → IsValid n → IsSafe (f a n))
    → IsSafe (and_then r f)
IsSafe-and_then (ok a, n) f (b, same, v) next = next a n v
IsSafe-and_then (err e, n) f (b, same, v) next = cc

FitsByte-stored :
    (rssi : Option ℤ)
    → FitsByte rssi
    → (pos_part (stored_rssi rssi) < 128) × (neg_part (stored_rssi rssi) < 129)
FitsByte-stored none f = (omega arith, omega arith)
FitsByte-stored (some z) f = f

module _ (crypto : Crypto) (decode : Bytes → Name) (uniform : Micros → Micros → Micros)
    (turn : Turn) (t : IsTurn turn) where
  pub handle_got-IsSafe :
      (got : Option (Bytes × Meta)) (n : Node)
      → IsDelivered got
      → IsValid n
      → IsSafe (handle_got crypto decode uniform turn got n)
  unfolding handle_got
  handle_got-IsSafe none n d v = (tt, refl, v)
  handle_got-IsSafe (some (frame, meta)) n d v =
      let (high, low) = FitsByte-stored meta.radio.rssi d.3 in
      IsSafe-and_then (handle crypto decode uniform turn.receive_at turn.learn_at frame meta n)
        (λ _ n1. (ok tt, n1))
        (handle-IsSafe crypto decode uniform turn.receive_at turn.learn_at frame meta n d.0
          (record { mac = d.2; rssi_high = high; rssi_low = low; seen_fits = t.learn_fits }) v)
        (λ _ n1 v1. (tt, refl, v1))

  -- A turn of the loop raises nothing and keeps a valid node valid, whatever bytes the socket gives,
  -- if the random bytes of a packet id are 4 bytes and the times fit 32 bits.
  pub poll-IsSafe :
      (buf : Option Bytes) (n : Node)
      → AreReceived buf
      → IsValid n
      → IsSafe (poll crypto decode uniform turn buf n)
  unfolding poll
  poll-IsSafe buf n a v =
      let (got, received, delivered) = recv-IsDelivered buf a in
      rw (poll, received, and_then)
        (IsSafe-and_then (handle_got crypto decode uniform turn got n) _
          (handle_got-IsSafe got n delivered v)
          (λ _ n1 v1.
            IsSafe-and_then (relay_due turn.due_at n1) _ (relay_due-IsSafe turn.due_at n1 v1)
              (λ _ n2 v2.
                IsSafe-and_then (announce_due crypto turn n2) _
                  (announce_due-IsSafe crypto turn n2 v2 t.draw)
                  (λ _ n3 v3.
                    IsSafe-and_then (tick_routes turn.tick_at n3) _
                      (tick_routes-IsSafe turn.tick_at n3 v3 t.tick_fits)
                      (λ _ n4 v4. expire_due-IsSafe turn n4 v4)))))
