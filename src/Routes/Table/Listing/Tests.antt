-- ===== src/Routes/Table/Listing/Tests.antt =====
-- The listing of a table with a relayed route and a neighbour.
use wifipi.Prelude.Int.{negsuc}
use wifipi.Bytes.{Bytes}
use wifipi.Prelude.{[], some, ◌∷◌, replicate, ◌≡◌, none, list_eq}
use mathlib.Core.List.{Perm}
use wifipi.Prelude.Sort.{filter}
use wifipi.Routes.Entry.{Route}
use wifipi.Routes.Entry.RoundTrip.{entry_bytes}
use wifipi.Routes.Table.{RouteTable}
use wifipi.Routes.Table.Listing.{entries, listing}
use wifipi.Routes.Table.Listing.Order.{IsOrdered, tied, listing_lem}
use wifipi.Prelude.Time.{seconds}

abbrev relay : Bytes
relay = entry_bytes (replicate 6 2) 1 (some (negsuc 39)) (seconds 100)

abbrev direct : Bytes
direct = entry_bytes (replicate 6 3) 0 none (seconds 101)

abbrev table : RouteTable
table = record {
  own_id = none;
  ttl = seconds 604_800;
  max_hot = 4;
  cold = none;
  hot = (replicate 16 1, relay) ∷ (replicate 16 3, direct) ∷ [];
  pending = [];
  stats = record { hot_hits = 0; cold_hits = 0; misses = 0; evictions = 0 };
}

listing_lem_example :
    IsOrdered (listing table)
    × Perm (listing table) (entries table)
    × ((r : Route) → filter (tied r) (listing table) ≡ filter (tied r) (entries table))
listing_lem_example = listing_lem table
