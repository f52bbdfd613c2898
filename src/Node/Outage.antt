-- ===== src/Node/Outage.antt =====
-- A turn of the loop with a radio that goes away: the socket raises `OSError` after some sends.
pub mod Survives
pub mod Agrees
pub mod Sends
use wifipi.Link.{recv}
use wifipi.Flood.{due}
use wifipi.Routes.Entry.{Name}
use wifipi.Bytes.{Bytes}
use wifipi.Prelude.Time.{Micros}
use wifipi.Identity.{build_announce, Crypto}
use wifipi.Prelude.{
  ◌+◌, leb, if◌then◌else◌, List, Option, ℕ, none, ◌∷◌, [], zero, suc, list_eq, pair_eq,
}
use wifipi.Prelude.Result.{Result, ok, err, os_error, and_then}
use wifipi.Flood
use wifipi.Flood.Seen
use wifipi.Frame.{version, flag_no_ack, type_announce, broadcast, make, Packet, key}
use wifipi.Node.{Node}
use wifipi.Node.Loop.{Draw, Turn, transmit, send_announce, tick_routes, expire_due, handle_got}

-- `self.link.send(p.to_bytes())` on a socket that raises
unfoldable pub refused : Packet → Node → Result (Unit {0}) × Node
refused p n = and_then (transmit p n) (λ _ sent. (err os_error, n))

-- the loop over `self.flooder.due()`, if the socket takes `k` packets more; it answers with what is left
unfoldable pub send_relays_until : ℕ → List Packet → Node → Result ℕ × Node
send_relays_until k [] n = (ok k, n)
send_relays_until zero (p ∷ ps) n = and_then (refused p n) (λ _ n1. (ok zero, n1))
send_relays_until (suc k) (p ∷ ps) n = and_then (transmit p n) (λ _ n1.
    send_relays_until k ps (record n1 {
      stats = record n1.stats { relayed = n1.stats.relayed + 1; sent = n1.stats.sent + 1 };
    }))

-- `send_announce`: the packet is in the seen cache before the socket is asked
unfoldable pub send_announce_until : Crypto → ℕ → Draw → Node → Result Packet × Node
send_announce_until crypto zero d n =
    and_then
      (
        make n.node_id broadcast type_announce (build_announce crypto d.random n.name n.identity)
            flag_no_ack n.hop_limit none version d.packet_id,
        n,
      )
      (λ p n0.
        let n1 = record n0 {
          flooder = record n0.flooder { seen = Seen.add d.added_at (key p) n0.flooder.seen };
        } in
        and_then (refused p n1) (λ _ n2. (ok p, n2)))
send_announce_until crypto (suc k) d n = send_announce crypto d n

unfoldable pub relay_due_until : ℕ → Micros → Node → Result ℕ × Node
relay_due_until k now n =
    let (out, f) = due now n.flooder in
    and_then (out, record n { flooder = f }) (λ packets n1. send_relays_until k packets n1)

unfoldable pub announce_due_until : Crypto → ℕ → Turn → Node → Result (Unit {0}) × Node
announce_due_until crypto k turn n =
    if leb n.next_announce turn.now
    then and_then (send_announce_until crypto k turn.announce n) (λ _ n1. (ok tt, n1))
    else (ok tt, n)

-- What the socket does in a turn: `recv` raises, or it returns and `k` packets can be sent after it.
pub data Socket : Type 0 where
  gone : Socket
  heard : Option Bytes → ℕ → Socket

module _ (crypto : Crypto) (decode : Bytes → Name) (uniform : Micros → Micros → Micros) where
  -- `poll`
  unfoldable pub poll_until : Turn → Socket → Node → Result (Unit {0}) × Node
  poll_until turn gone n = (err os_error, n)
  poll_until turn (heard buf k) n =
      and_then (recv buf, n)
        (λ got n0. and_then (handle_got crypto decode uniform turn got n0) (λ _ n1.
          and_then (relay_due_until k turn.due_at n1) (λ left n2.
            and_then (announce_due_until crypto left turn n2)
              (λ _ n3. and_then (tick_routes turn.tick_at n3) (λ _ n4. expire_due turn n4)))))
