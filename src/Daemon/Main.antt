-- ===== src/Daemon/Main.antt =====
-- bin/beachedmesh: the main loop of the daemon, its wait for an adapter that is lost, and its end.
pub mod Lives
mod Tests
use wifipi.Prelude.{
  ◌&&◌, ◌+◌, if◌then◌else◌, List, Option, Bool, ℕ, some, none, true, false, zero, suc, ◌∷◌, [],
}
use wifipi.Prelude.Time.{Micros}
use wifipi.Prelude.Result.{Result, ok, err, os_error, and_then}
use wifipi.Bytes.{Bytes}
use wifipi.Identity.{Crypto}
use wifipi.Routes.Entry.{Name}
use wifipi.Routes.Table.Warm
use wifipi.Node.Loop.{Turn}
use wifipi.Node.Outage.{Socket, poll_until}
use wifipi.Node.Status.{Running}
use wifipi.Control.Server
use wifipi.Control.Server.{Connection, Server}

-- A turn of the wait: whether a stop was asked for before it, whether the interface is there and passes
-- `verify_and_configure`, or the exception that this raises, and whether `MonitorLink` opens it.
pub record Retry : Type 0 where
  pub stop : Bool
  pub usable : Result Bool
  pub opened : Bool

-- The wait from turn `t` on: true if the radio recovered, false if it was stopped; an exception of the
-- checks ends it. Without fuel there is no answer.
unfoldable pub reopen : (ℕ → Retry) → ℕ → ℕ → Option (Result Bool)
reopen retries t zero = none
reopen retries t (suc fuel) =
    let rest = reopen retries (t + 1) fuel in
    if (retries t).stop then some (ok false) else elim (retries t).usable [
      | err e ↦ some (err e)
      | ok usable ↦ if usable && (retries t).opened then some (ok true) else rest
    ]

-- What a turn of the main loop meets: what `poll` reads and the socket does, the wait if the socket
-- raises, and the connections that wait on the control socket.
pub record Day : Type 0 where
  pub turn : Turn
  pub socket : Socket
  pub retries : ℕ → Retry
  pub connections : Option (List Connection)

-- the `continue` behind the wait, which a stop makes the last
abbrev pub waited : Option (Result Bool) → Server → Option (Result Bool × Server)
waited none s = none
waited (some recovered) s = some (recovered, s)

-- the rest of the main loop, unless a turn raises or is the last
abbrev pub go_on :
    Option (Result Bool × Server)
    → (Server → Option (Result (Unit {0}) × Server))
    → Option (Result (Unit {0}) × Server)
go_on none rest = none
go_on (some (err e, s)) rest = some (err e, s)
go_on (some (ok false, s)) rest = some (ok tt, s)
go_on (some (ok true, s)) rest = rest s

-- `close` of the node, for the part of it that is not the socket's; `now` is the reading of the flush
abbrev pub shut : Micros → Server → Server
shut now s = record s { node = record s.node { routes = Warm.close now s.node.routes } }

-- the end of `main`, which an exception skips
abbrev pub shut_after :
    Micros → Option (Result (Unit {0}) × Server) → Option (Result (Unit {0}) × Server)
shut_after now none = none
shut_after now (some (err e, s)) = some (err e, s)
shut_after now (some (ok u, s)) = some (ok u, shut now s)

module _ (crypto : Crypto) (decode : Bytes → Name) (uniform : Micros → Micros → Micros)
    (own : Running) (fuel : ℕ) where
  -- what follows on the `try` clause; true for another turn
  abbrev pub after_poll : Day → Result (Unit {0}) × Server → Option (Result Bool × Server)
  after_poll d (ok u, s) =
      some (and_then (Server.poll crypto own d.connections s) (λ served s1. (ok true, s1)))
  after_poll d (err os_error, s) = waited (reopen d.retries 0 fuel) s
  after_poll d (err e, s) = some (err e, s)

  unfoldable pub main_turn : Day → Server → Option (Result Bool × Server)
  main_turn d s =
      let (r, n) = poll_until crypto decode uniform d.turn d.socket s.node in
      after_poll d (r, record s { node = n })

  -- the loop over the turns before a stop is asked for
  unfoldable pub main_from : List Day → Server → Option (Result (Unit {0}) × Server)
  main_from [] s = some (ok tt, s)
  main_from (d ∷ ds) s = go_on (main_turn d s) (λ s1. main_from ds s1)

  unfoldable pub main : List Day → Micros → Server → Option (Result (Unit {0}) × Server)
  main ds now s = shut_after now (main_from ds s)
