-- ===== src/Node/Status.antt =====
-- beachedmesh/node.py: what `status` reports of a node.
use wifipi.Prelude.Time.{Micros}
use wifipi.Bytes.{Bytes}
use wifipi.Prelude.{◌-◌, length, ℕ, list_eq, pair_eq}
use wifipi.Prelude.Int.{ℤ}
use wifipi.Routes.Entry.{Name}
use wifipi.Routes.Table.Listing
use wifipi.Control.{hex, minus}
use wifipi.Node.{Node}

-- What the node has beside its tables: the name of the interface, and when it started.
pub record Running : Type 0 where
  pub ifname : Name
  pub started : Micros

-- `name` is the encoded name
pub record Status : Type 0 where
  pub node_id : Name
  pub name : Bytes
  pub iface : Name
  pub uptime : ℤ
  pub hot_routes : ℕ
  pub neighbours : ℕ
  pub received : ℕ
  pub sent : ℕ
  pub announces_sent : ℕ
  pub rejected : ℕ
  pub relayed : ℕ
  pub cancelled : ℕ
  pub duplicates : ℕ
  pub seen_cache : ℕ
  pub next_announce : Micros

-- `wall` and `mono` are the readings of `time.time` and `time.monotonic`
unfoldable pub status : Running → Micros → Micros → Node → Status
status own wall mono n = record {
  node_id = hex n.node_id;
  name = n.name;
  iface = own.ifname;
  uptime = minus wall own.started;
  hot_routes = length n.routes.hot;
  neighbours = length (Listing.neighbours n.routes);
  received = n.stats.received;
  sent = n.stats.sent;
  announces_sent = n.stats.announces;
  rejected = n.stats.rejected;
  relayed = n.flooder.stats.relayed;
  cancelled = n.flooder.stats.cancelled;
  duplicates = n.flooder.stats.duplicates;
  seen_cache = length n.flooder.seen.entries;
  next_announce = n.next_announce - mono;
}
