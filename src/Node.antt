-- ===== src/Node.antt =====
-- beachedmesh/node.py: the node, and what it does with a frame that its radio hands up.
pub mod Loop
pub mod Forged
pub mod Robust
pub mod Start
pub mod Outage
pub mod Life
pub mod Status
mod Tests
use wifipi.Prelude.{
  List, [], ℕ, ◌+◌, ◌-◌, Bool, true, false, Option, none, some, nat_beq, if◌then◌else◌,
}
use wifipi.Prelude.Int.{ℤ}
use wifipi.Prelude.Result.{
  Error, short_packet, bad_magic, unsupported_version, Result, ok, err, and_then,
}
use wifipi.Prelude.Time.{Micros}
use wifipi.Bytes.{Bytes}
use wifipi.Frame.{Packet, from_bytes, type_announce}
use wifipi.Link.{Meta}
use wifipi.Identity.{Identity, Crypto, Announce, parse_announce}
use wifipi.Flood
use wifipi.Flood.{relay_threshold, Flooder, Readings, Verdict, own, scheduled, no_hops, on_receive}
use wifipi.Routes.Table
use wifipi.Routes.Entry.{default_ttl, max_hot_routes, Name}
use wifipi.Routes.Cold.{ColdStore, Extras, no_extras}
use wifipi.Routes.Table.{RouteTable, Clocks, Heard, learn}

pub record Stats : Type 0 where
  pub received : ℕ
  pub announces : ℕ
  pub rejected : ℕ
  pub relayed : ℕ
  pub sent : ℕ

-- `name` is the encoded name, and `on_air` the packets that were handed to `link.send`, in order
pub record Node : Type 0 where
  pub identity : Identity
  pub node_id : Bytes
  pub name : Bytes
  pub hop_limit : ℕ
  pub announce_interval : Micros
  pub flooder : Flooder
  pub routes : RouteTable
  pub next_announce : Micros
  pub last_expire : Micros
  pub stats : Stats
  pub on_air : List Bytes

-- `Node.__init__`, with the cold store that `db` opens and the reading of `time.monotonic`
unfoldable pub init : Identity → Micros → Bytes → Option ColdStore → ℕ → Micros → Node
unfolding Flood.init Table.init
init identity announce_interval name cold hop_limit now = record {
  identity = identity;
  node_id = identity.node_id;
  name = name;
  hop_limit = hop_limit;
  announce_interval = announce_interval;
  flooder = Flood.init (some identity.node_id) relay_threshold none;
  routes = Table.init (some identity.node_id) default_ttl cold max_hot_routes;
  next_announce = 0;
  last_expire = now;
  stats = record { received = 0; announces = 0; rejected = 0; relayed = 0; sent = 0 };
  on_air = [];
}

-- `except BadFrame`
abbrev pub is_bad_frame : Error → Bool
is_bad_frame (short_packet n) = true
is_bad_frame bad_magic = true
is_bad_frame (unsupported_version v) = true
is_bad_frame _ = false

-- `verdict in ("scheduled", "no-hops")`
abbrev pub is_first_time : Verdict → Bool
is_first_time scheduled = true
is_first_time no_hops = true
is_first_time _ = false

abbrev pub is_own_verdict : Verdict → Bool
is_own_verdict own = true
is_own_verdict _ = false

-- the hops that a packet has made, by the node's own hop limit, and at least 0
abbrev pub heard_from : Node → Packet → Meta → Extras → Heard
heard_from n p meta extras = record {
  next_hop = meta.src_mac;
  hops = n.hop_limit - p.hop_limit;
  rssi = meta.radio.rssi;
  extras = extras;
}

unfoldable pub learn_from : Clocks → Packet → Meta → Extras → Node → Result (Unit {0}) × Node
learn_from now p meta extras n =
    let (v, t) = learn now p.src (heard_from n p meta extras) n.routes in
    and_then (v, record n { routes = t }) (λ _ n'. (ok tt, n'))

-- `crypto` and `decode`, which is `bytes.decode(errors="replace")`, are the libraries'
module _ (crypto : Crypto) (decode : Bytes → Name) where
  abbrev pub extras_of : Announce → Extras
  extras_of info = record {
    sign_pub = some info.sign_pub;
    encrypt_pub = some info.encrypt_pub;
    name = decode info.app_data;
  }

  unfoldable pub handle_announce :
      Clocks → Packet → Meta → Verdict → Node → Result (Unit {0}) × Node
  handle_announce now p meta verdict n =
      if is_first_time verdict
      then elim (parse_announce crypto p.src p.payload) [
        | err e ↦ (ok tt, record n { stats = record n.stats { rejected = n.stats.rejected + 1 } })
        | ok info ↦ learn_from now p meta (extras_of info) n
      ]
      else if is_own_verdict verdict
      then (ok tt, n)
      else learn_from now p meta no_extras n

  -- `_handle` of a packet, with the verdict of the flooder
  unfoldable pub classify : Clocks → Packet → Meta → Verdict → Node → Result (Option Packet) × Node
  classify now p meta verdict n =
      if nat_beq p.type type_announce
      then and_then (handle_announce now p meta verdict n) (λ _ n'. (ok (some p), n'))
      else (ok (some p), n)

  -- `_handle`, with the draws and the clocks of `on_receive` and `learn`
  unfoldable pub handle :
      (Micros → Micros → Micros)
      → Readings
      → Clocks
      → Bytes
      → Meta
      → Node
      → Result (Option Packet) × Node
  handle uniform at now frame meta n = elim (from_bytes frame) [
    | err e ↦ if is_bad_frame e then (ok none, n) else (err e, n)
    | ok p ↦
        let n1 = record n { stats = record n.stats { received = n.stats.received + 1 } } in
        let (verdict, f) = on_receive uniform at p meta.radio.rssi n1.flooder in
        and_then (verdict, record n1 { flooder = f }) (λ v n2. classify now p meta v n2)
  ]
