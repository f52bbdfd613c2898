-- ===== src/Node/Outage/Survives.antt =====
-- A radio that goes away leaves the node valid.
use wifipi.Flood.Relays.{expired-All}
use wifipi.Flood.Due.{after_due, expired, due-after_due}
use wifipi.Frame.{Packet, key}
use wifipi.Flood.Seen
use wifipi.Routes.Entry.{Name}
use wifipi.Bytes.{Bytes}
use wifipi.Prelude.Time.{Micros}
use wifipi.Link.Received.{recv-IsDelivered, AreReceived}
use wifipi.Identity.{Crypto}
use wifipi.Prelude.{
  All, refl, leb, List, ◌⊎◌, Bool-cases, ℕ, ◌≡◌, inl, inr, ◌∷◌, [], zero, suc, list_eq, pair_eq,
}
use wifipi.Prelude.Result.{Result, ok, err, os_error, and_then}
use wifipi.Node.{Node}
use wifipi.Node.Robust.{IsValid, IsSafe}
use wifipi.Frame.Wire
use wifipi.Node.Loop.{Draw, Turn, tick_routes, handle_got}
use wifipi.Node.Loop.Announce.{
  added-IsValid, announce_packet-IsValid, IsDraw, transmit_lem, announce_packet,
  send_announce-IsSafe, made,
}
use wifipi.Node.Loop.Invariant.{
  after_due-IsValid, IsTurn, handle_got-IsSafe, tick_routes-IsSafe, expire_due-IsSafe,
}
use wifipi.Node.Outage.{
  refused, send_relays_until, send_announce_until, relay_due_until, announce_due_until, Socket,
  gone, heard, poll_until,
}

-- A valid node, and no exception but `OSError`.
abbrev pub Survives : {A : Type 0} → Result A × Node → Type 0
Survives {A = A} (r, n) = ((r ≡ err os_error) ⊎ ((a : A) × (r ≡ ok a))) × IsValid n

Survives-IsSafe : {A : Type 0} (r : Result A × Node) → IsSafe r → Survives r
Survives-IsSafe (r, n) (a, same, v) = (inr (a, same), v)

Survives-and_then :
    {A B : Type 0} (r : Result A × Node) (f : A → Node → Result B × Node)
    → Survives r
    → ((a : A) (n : Node) → IsValid n → Survives (f a n))
    → Survives (and_then r f)
Survives-and_then (ok a, n) f (o, v) next = next a n v
Survives-and_then (err e, n) f (inl same, v) next = (inl (cc), v)
Survives-and_then (err e, n) f (inr (a, same), v) next = cc

pub refused_lem : (p : Packet) (n : Node) → Wire.IsValid p → refused p n ≡ (err os_error, n)
unfolding refused
refused_lem p n v = rw (refused, transmit_lem p n v, and_then) refl

send_relays_until-Survives :
    (k : ℕ) (ps : List Packet) (n : Node)
    → All Wire.IsValid ps
    → IsValid n
    → Survives (send_relays_until k ps n)
unfolding send_relays_until
send_relays_until-Survives k [] n a v = (inr (k, refl), v)
send_relays_until-Survives zero (p ∷ ps) n a v =
    rw (send_relays_until, refused_lem p n a.0, and_then) (inl refl, v)
send_relays_until-Survives (suc k) (p ∷ ps) n a v =
    rw (send_relays_until, transmit_lem p n a.0, and_then)
      (send_relays_until-Survives k ps _ a.1 (record {
        flooder = v.flooder;
        routes = v.routes;
        room = v.room;
        hops_fit = v.hops_fit;
        id_length = v.id_length;
        relays = v.relays;
        candidates = v.candidates;
      }))

pub relay_due_until-Survives :
    (k : ℕ) (now : Micros) (n : Node) → IsValid n → Survives (relay_due_until k now n)
unfolding relay_due_until
relay_due_until-Survives k now n v =
    rw (relay_due_until, due-after_due now n.flooder v.flooder.distinct, and_then)
      (send_relays_until-Survives k (expired now n.flooder.pending)
        (record n { flooder = after_due now n.flooder })
        (expired-All now n.flooder.pending v.relays) (after_due-IsValid now n v))

pub send_announce_until-Survives :
    (crypto : Crypto) (k : ℕ) (d : Draw) (n : Node)
    → IsValid n
    → IsDraw d
    → Survives (send_announce_until crypto k d n)
unfolding send_announce_until
send_announce_until-Survives crypto zero d n v w =
    let p = announce_packet crypto d n in
    let n1 = record n {
      flooder = record n.flooder { seen = Seen.add d.added_at (key p) n.flooder.seen };
    } in
    let refused_it = refused_lem p n1 (announce_packet-IsValid crypto d n v w) in
    rw (send_announce_until, made crypto d n v w, and_then, refused_it)
      (inl refl, added-IsValid d.added_at p n v)
send_announce_until-Survives crypto (suc k) d n v w =
    Survives-IsSafe _ (send_announce-IsSafe crypto d n v w)

pub announce_due_until-Survives :
    (crypto : Crypto) (k : ℕ) (turn : Turn) (n : Node)
    → IsValid n
    → IsDraw turn.announce
    → Survives (announce_due_until crypto k turn n)
unfolding announce_due_until
announce_due_until-Survives crypto k turn n v w = elim (Bool-cases (leb n.next_announce turn.now)) [
  | inl ready ↦
      rw (announce_due_until, ready)
        (Survives-and_then (send_announce_until crypto k turn.announce n) _
          (send_announce_until-Survives crypto k turn.announce n v w)
          (λ _ n1 v1. (inr (tt, refl), v1)))
  | inr early ↦ rw (announce_due_until, early) (inr (tt, refl), v)
]

-- What the socket returns is bytes.
abbrev pub IsSocket : Socket → Type 0
IsSocket gone = Unit
IsSocket (heard buf k) = AreReceived buf

module _ (crypto : Crypto) (decode : Bytes → Name) (uniform : Micros → Micros → Micros)
    (turn : Turn) (t : IsTurn turn) where
  -- A turn of the loop raises nothing but the OSError of the socket, whatever the socket returns and
  -- after however many packets it goes away; the node stays valid, if the random bytes of a packet id
  -- are 4 bytes and the times fit 32 bits.
  pub poll_until-Survives :
      (s : Socket) (n : Node)
      → IsSocket s
      → IsValid n
      → Survives (poll_until crypto decode uniform turn s n)
  unfolding poll_until
  poll_until-Survives gone n a v = (inl refl, v)
  poll_until-Survives (heard buf k) n a v =
      let (got, received, delivered) = recv-IsDelivered buf a in
      rw (poll_until, received, and_then)
        (Survives-and_then (handle_got crypto decode uniform turn got n) _
          (Survives-IsSafe _ (handle_got-IsSafe crypto decode uniform turn t got n delivered v))
          (λ _ n1 v1.
            Survives-and_then (relay_due_until k turn.due_at n1) _
              (relay_due_until-Survives k turn.due_at n1 v1)
              (λ left n2 v2.
                Survives-and_then (announce_due_until crypto left turn n2) _
                  (announce_due_until-Survives crypto left turn n2 v2 t.draw)
                  (λ _ n3 v3.
                    Survives-and_then (tick_routes turn.tick_at n3) _
                      (Survives-IsSafe _ (tick_routes-IsSafe turn.tick_at n3 v3 t.tick_fits))
                      (λ _ n4 v4. Survives-IsSafe _ (expire_due-IsSafe turn n4 v4))))))
