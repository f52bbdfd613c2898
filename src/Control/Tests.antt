-- ===== src/Control/Tests.antt =====
-- Requests to a node with a relayed route and a neighbour.
use wifipi.Prelude.Time.{Micros, seconds}
use Prim.Native.Nat.{min, max}
use wifipi.Prelude.{
  ◌≤◌, length, take, ◌+◌, some, refl, ◌≡◌, ◌∷◌, ℕ, arith, [], replicate, none, false, list_eq,
}
use wifipi.Prelude.Int.{pos, negsuc, pos_part}
use wifipi.Routes.Entry.RoundTrip.{entry_bytes}
use wifipi.Routes.Table.{RouteTable}
use wifipi.Control.{cmd_routes}
use wifipi.Control.Answers.{rows, asked, cmd_routes_lem}
use wifipi.Identity.{Identity, Crypto}
use wifipi.Node.{Node, init}
use wifipi.Node.Loop.{Draw}
use wifipi.Node.Loop.Announce.{IsDraw}

abbrev table : RouteTable
table = record {
  own_id = none;
  ttl = seconds 604_800;
  max_hot = 4;
  cold = none;
  hot =
      (replicate 16 1, entry_bytes (replicate 6 2) 1 (some (negsuc 39)) (seconds 100))
      ∷ (replicate 16 3, entry_bytes (replicate 6 3) 0 none (seconds 101))
      ∷ [];
  pending = [];
  stats = record { hot_hits = 0; cold_hits = 0; misses = 0; evictions = 0 };
}

abbrev clock : ℕ → Micros
clock n = seconds 110 + n

cmd_routes_lem_example :
    let out = (cmd_routes clock (pos 40) false table).routes in
    (out ≡ rows clock 0 (take (max 1 (min (pos_part (pos 40)) 500)) (asked false table)))
    × (length out ≤ 500)
cmd_routes_lem_example = cmd_routes_lem clock (pos 40) false table

-- no signature verifies
abbrev crypto : Crypto
crypto = record { sha256 = λ k. k; sign = λ k d. []; verifies = λ k s d. false }

abbrev identity : Identity
identity = record {
  sign_key = [];
  sign_pub = replicate 32 9;
  encrypt_pub = replicate 32 9;
  node_id = replicate 16 9;
}

abbrev node : Node
node = init identity (seconds 21_600) (97 ∷ []) none 3 0

abbrev draw : Draw
draw = record { random = replicate 10 5; packet_id = 1 ∷ 2 ∷ 3 ∷ 4 ∷ []; added_at = 1; sent_at = 2 }

draw-IsDraw : IsDraw draw
draw-IsDraw = record { id_length = refl; id_bytes = ground arith }
