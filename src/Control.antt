-- ===== src/Control.antt =====
-- beachedmesh/control.py: what the control socket answers of the routes, the relays and an announce.
pub mod Json
pub mod Server
pub mod Answers
mod Tests
use wifipi.Prelude.Result.{ok, err, and_then, Result}
use wifipi.Node.{Node}
use wifipi.Routes.Table.Lookup.{memory_bytes}
use wifipi.Frame.{to_bytes, Key}
use wifipi.Prelude.Dict.{Dict}
use wifipi.Node.Loop.{Draw}
use wifipi.Node.Outage.{send_announce_until}
use wifipi.Routes.Table.{RouteTable}
use wifipi.Routes.Entry.{is_neighbour, Route, Name}
use wifipi.Identity.{Crypto}
use wifipi.Prelude.Time.{Micros}
use wifipi.Bytes.{Bytes}
use wifipi.Prelude.{
  not, ◌∷◌, [], ◌/◌, ◌%◌, ◌*◌, true, false, ◌&&◌, ◌||◌, ◌-◌, take, nat_beq, Option, ◌+◌, ltb,
  length, leb, if◌then◌else◌, ℕ, List, Bool, list_eq,
}
use wifipi.Prelude.Int.{ℤ, pos, negsuc, leb_ℤ}
use wifipi.Routes.Table.Listing.{listing}
use wifipi.Flood
use wifipi.Flood.Seen
use wifipi.Flood.{Flooder, Pending}

abbrev pub max_routes : ℕ
max_routes = 500

-- `bytes.hex`, as code points
abbrev pub digit : ℕ → ℕ
digit n = if ltb n 10 then 48 + n else 87 + n

unfoldable pub hex : Bytes → Name
hex [] = []
hex (b ∷ bs) = digit (b / 16) ∷ digit (b % 16) ∷ hex bs

-- `a - b` on times
abbrev pub minus : Micros → Micros → ℤ
minus a b = if leb b a then pos (a - b) else negsuc (b - a - 1)

-- `round(x, 1)`, of a number of microseconds over one decimal of this many: halves go to the even side
abbrev pub round_half : ℕ → ℕ → ℕ
round_half unit n =
    if ltb unit (n % unit * 2) || (nat_beq (n % unit * 2) unit && nat_beq (n / unit % 2) 1)
    then n / unit + 1
    else n / unit

unfoldable pub round_to : ℕ → ℤ → ℤ
round_to unit (pos n) = pos (round_half unit n)
round_to unit (negsuc n) =
    let k = round_half unit (n + 1) in if nat_beq k 0 then pos 0 else negsuc (k - 1)

-- an item of "routes"; the age is in tenths of a second
pub record RouteRow : Type 0 where
  pub node_id : Name
  pub next_hop : Name
  pub hops : ℕ
  pub rssi : Option ℤ
  pub age : ℤ

-- `now` is the reading of `time.time` in `r.age()`
unfoldable pub route_row : Micros → Route → RouteRow
route_row now r = record {
  node_id = hex r.node_id;
  next_hop = hex r.next_hop;
  hops = r.hops;
  rssi = r.rssi;
  age = round_to 100_000 (minus now r.last_seen);
}

-- the loop over the routes, with `n` of them in `out`; `clock n` is the reading for the next
unfoldable pub collect : (ℕ → Micros) → Bool → ℤ → ℕ → List Route → List RouteRow
collect clock want_neighbours limit n [] = []
collect clock want_neighbours limit n (r ∷ rs) =
    let skipped = collect clock want_neighbours limit n rs in
    let rest = collect clock want_neighbours limit (n + 1) rs in
    if want_neighbours && not (is_neighbour r)
    then skipped
    else if leb_ℤ limit (pos (n + 1))
    then route_row (clock n) r ∷ []
    else route_row (clock n) r ∷ rest

-- the answer to "routes"
pub record RoutesReply : Type 0 where
  pub routes : List RouteRow
  pub hot : ℕ
  pub max_hot : ℕ
  pub memory : ℕ
  pub truncated : Bool

-- `min(limit, MAX_ROUTES)`
abbrev pub capped : ℤ → ℤ
capped limit = if leb_ℤ limit (pos max_routes) then limit else pos max_routes

-- `_cmd_routes` of a request with this limit and wish
unfoldable pub cmd_routes : (ℕ → Micros) → ℤ → Bool → RouteTable → RoutesReply
cmd_routes clock limit want_neighbours t =
    let out = collect clock want_neighbours (capped limit) 0 (listing t) in
    record {
      routes = out;
      hot = length t.hot;
      max_hot = t.max_hot;
      memory = memory_bytes t;
      truncated = ltb (length out) (length t.hot);
    }

-- an item of "pending_detail"; `in_ms` is in tenths of a millisecond
pub record Detail : Type 0 where
  pub src : Name
  pub packet_id : Name
  pub hops_left : ℕ
  pub heard : ℕ
  pub in_ms : ℤ

-- the answer to "flood"
pub record FloodReply : Type 0 where
  pub stats : Flood.Stats
  pub pending : ℕ
  pub seen_cache : ℕ
  pub seen_capacity : ℕ
  pub threshold : ℕ
  pub pending_detail : List Detail

-- `now` is the reading of `time.monotonic`
unfoldable pub detail : Micros → Pending → Detail
detail now p = record {
  src = hex p.packet.src;
  packet_id = hex p.packet.packet_id;
  hops_left = p.packet.hop_limit;
  heard = p.heard;
  in_ms = round_to 100 (minus p.send_at now);
}

-- the comprehension over the pending relays
unfoldable pub details : (ℕ → Micros) → ℕ → Dict Key Pending → List Detail
details clock n [] = []
details clock n ((k, p) ∷ d) = detail (clock n) p ∷ details clock (n + 1) d

unfoldable pub cmd_flood : (ℕ → Micros) → Flooder → FloodReply
cmd_flood clock f = record {
  stats = f.stats;
  pending = length f.pending;
  seen_cache = length f.seen.entries;
  seen_capacity = f.seen.capacity;
  threshold = f.threshold;
  pending_detail = details clock 0 (take 20 f.pending);
}

-- the answer to "announce", which always has `sent` true
pub record AnnounceReply : Type 0 where
  pub sent : Bool
  pub packet_id : Name
  pub size : ℕ

-- with a radio that takes `k` packets before it goes away
unfoldable pub cmd_announce : Crypto → ℕ → Draw → Node → Result AnnounceReply × Node
cmd_announce crypto k d n = and_then (send_announce_until crypto k d n) (λ p n1. elim (to_bytes p) [
  | err e ↦ (err e, n1)
  | ok bs ↦ (ok (record { sent = true; packet_id = hex p.packet_id; size = length bs }), n1)
])
