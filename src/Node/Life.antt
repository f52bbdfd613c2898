-- ===== src/Node/Life.antt =====
-- The life of a node: how it starts, and the steps that its daemon (bin/beachedmesh) takes it through.
pub mod Reached
mod Tests
use wifipi.Prelude.Time.{Micros}
use wifipi.Routes.Entry.{Name}
use wifipi.Identity.{Identity, Crypto}
use wifipi.Bytes.{Bytes}
use wifipi.Prelude.{ℕ, Option, none, list_eq, pair_eq}
use wifipi.Prelude.Result.{Result}
use wifipi.Prelude.Dict.{Dict}
use wifipi.Routes.Cold.{ColdStore, Row}
use wifipi.Routes.Table.Warm.{warm}
use wifipi.Node
use wifipi.Node.{Node}
use wifipi.Node.Loop.{Draw, Turn}
use wifipi.Node.Loop.Announce.{IsDraw}
use wifipi.Node.Loop.Invariant.{IsTurn}
use wifipi.Node.Outage.{Socket, poll_until, send_announce_until}
use wifipi.Node.Outage.Survives.{IsSocket}

-- `Node(...)`, and `node.routes.warm()` on it
unfoldable pub boot :
    (Dict Bytes Row → Dict Bytes Row)
    → Identity
    → Micros
    → Bytes
    → Option ColdStore
    → ℕ
    → Micros
    → Result ℕ × Node
unfolding Node.init
boot newest_first identity announce_interval name cold hop_limit now =
    let n = Node.init identity announce_interval name cold hop_limit now in
    let (r, t) = warm newest_first none n.routes in (r, record n { routes = t })

module _ (crypto : Crypto) (decode : Bytes → Name) (uniform : Micros → Micros → Micros) where
  -- What the daemon does with its node: a turn of the loop, and the announce that the control socket
  -- is asked for, each with a radio that may go away.
  pub data Step : Node → Node → Type 0 where
    turn :
        (t : Turn) (s : Socket) (n : Node)
        → IsTurn t
        → IsSocket s
        → Step n (poll_until crypto decode uniform t s n).1
    announce :
        (k : ℕ) (d : Draw) (n : Node) → IsDraw d → Step n (send_announce_until crypto k d n).1

  pub data Reach (start : Node) : Node → Type 0 where
    here : Reach start start
    next : {n m : Node} → Reach start n → Step n m → Reach start m
