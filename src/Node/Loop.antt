-- ===== src/Node/Loop.antt =====
-- What a node sends, and one turn of its loop.
pub mod Announce
pub mod Invariant
pub mod Sends
use wifipi.Prelude.{
  ℕ, ◌+◌, Option, none, some, List, [], ◌∷◌, ◌++◌, leb, if◌then◌else◌, list_eq, pair_eq,
}
use wifipi.Prelude.Result.{Result, ok, err, and_then}
use wifipi.Prelude.Time.{Micros, seconds}
use wifipi.Bytes.{Bytes}
use wifipi.Frame.{Packet, broadcast, type_announce, flag_no_ack, version, make, to_bytes, key}
use wifipi.Identity.{Crypto, build_announce}
use wifipi.Flood
use wifipi.Flood.Seen
use wifipi.Flood.{Readings, due}
use wifipi.Routes.Entry.{Name}
use wifipi.Routes.Table.{Clocks, tick}
use wifipi.Routes.Table.Lookup.{expire_table}
use wifipi.Link.{Meta, recv}
use wifipi.Node.{Node, handle}

abbrev pub expire_every : Micros
expire_every = seconds 60

-- `self.link.send(packet.to_bytes())`, with the statistics that go with it
unfoldable pub transmit : Packet → Node → Result (Unit {0}) × Node
transmit p n = elim (to_bytes p) [
  | err e ↦ (err e, n)
  | ok bs ↦ (ok tt, record n { on_air = n.on_air ++ bs ∷ [] })
]

-- What one `send_announce` reads: `os.urandom` for the announce and for the packet id, and
-- `time.monotonic` in the seen cache and for the next announce.
pub record Draw : Type 0 where
  pub random : Bytes
  pub packet_id : Bytes
  pub added_at : Micros
  pub sent_at : Micros

unfoldable pub send_announce : Crypto → Draw → Node → Result Packet × Node
unfolding transmit
send_announce crypto d n =
    and_then
      (
        make n.node_id broadcast type_announce (build_announce crypto d.random n.name n.identity)
            flag_no_ack n.hop_limit none version d.packet_id,
        n,
      )
      (λ p n0.
        let n1 = record n0 {
          flooder = record n0.flooder { seen = Seen.add d.added_at (key p) n0.flooder.seen };
        } in
        and_then (transmit p n1) (λ _ n2. (
          ok p,
          record n2 {
            stats = record n2.stats {
              sent = n2.stats.sent + 1;
              announces = n2.stats.announces + 1;
            };
            next_announce = d.sent_at + n2.announce_interval;
          },
        )))

-- the loop over `self.flooder.due()`
unfoldable pub send_relays : List Packet → Node → Result (Unit {0}) × Node
unfolding transmit
send_relays [] n = (ok tt, n)
send_relays (p ∷ ps) n = and_then (transmit p n) (λ _ n1. send_relays ps (record n1 {
  stats = record n1.stats { relayed = n1.stats.relayed + 1; sent = n1.stats.sent + 1 };
}))

-- The clocks and draws of one turn: in `_handle`, after it, in `due`, in `send_announce`, `tick` and
-- `expire`.
pub record Turn : Type 0 where
  pub receive_at : Readings
  pub learn_at : Clocks
  pub now : Micros
  pub due_at : Micros
  pub announce : Draw
  pub tick_at : Clocks
  pub expire_at : Micros

unfoldable pub relay_due : Micros → Node → Result (Unit {0}) × Node
relay_due now n =
    let (out, f) = due now n.flooder in
    and_then (out, record n { flooder = f }) (λ packets n1. send_relays packets n1)

unfoldable pub announce_due : Crypto → Turn → Node → Result (Unit {0}) × Node
announce_due crypto turn n =
    if leb n.next_announce turn.now
    then and_then (send_announce crypto turn.announce n) (λ _ n1. (ok tt, n1))
    else (ok tt, n)

unfoldable pub tick_routes : Clocks → Node → Result (Unit {0}) × Node
tick_routes now n =
    let (written, t) = tick now n.routes in
    and_then (written, record n { routes = t }) (λ _ n1. (ok tt, n1))

unfoldable pub expire_due : Turn → Node → Result (Unit {0}) × Node
expire_due turn n =
    if leb (n.last_expire + expire_every) turn.now
    then (
      ok tt,
      record n { routes = (expire_table turn.expire_at n.routes).1; last_expire = turn.now },
    )
    else (ok tt, n)

module _ (crypto : Crypto) (decode : Bytes → Name) (uniform : Micros → Micros → Micros) where
  -- `self._handle(*got)`, if there is something
  unfoldable pub handle_got : Turn → Option (Bytes × Meta) → Node → Result (Unit {0}) × Node
  handle_got turn none n = (ok tt, n)
  handle_got turn (some (frame, meta)) n =
      and_then (handle crypto decode uniform turn.receive_at turn.learn_at frame meta n)
        (λ _ n1. (ok tt, n1))

  -- `poll`, given what the socket returns to `self.link.recv()`; the timeout that `poll` computes is
  -- not used by the source either
  unfoldable pub poll : Turn → Option Bytes → Node → Result (Unit {0}) × Node
  poll turn buf n =
      and_then (recv buf, n)
        (λ got n0. and_then (handle_got turn got n0) (λ _ n1.
          and_then (relay_due turn.due_at n1) (λ _ n2.
            and_then (announce_due crypto turn n2)
              (λ _ n3. and_then (tick_routes turn.tick_at n3) (λ _ n4. expire_due turn n4)))))
