-- ===== src/Routes/Table/Lookup/Tests.antt =====
-- A table with one node at hand and another on disk.
use wifipi.Prelude.{◌≡◌, ◌+◌, refl, [], ◌∷◌, replicate, some, none, false, list_eq, arith}
use wifipi.Prelude.Equality.{list_beq}
use wifipi.Prelude.Int.{negsuc}
use wifipi.Prelude.Time.{seconds}
use wifipi.Prelude.Result.{ok}
use wifipi.Prelude.Dict.{get}
use wifipi.Bytes.{Bytes}
use wifipi.Routes.Entry.RoundTrip.{InRange, entry_bytes}
use wifipi.Routes.Cold.{ColdStore, Row, route_of_row}
use wifipi.Routes.Cold
use wifipi.Routes.Cold.Laws
use wifipi.Routes.Table.{RouteTable}
use wifipi.Routes.Table.Hot.{IsValid}
use wifipi.Routes.Table.Lookup.{cold_route, route, next_hop, expire_table}
use wifipi.Routes.Table.Lookup.Answers.{Fits, hop_of, lookups, next_hop_lem}
use wifipi.Routes.Table.Lookup.Expiry.{fresh_entry, fresh_row, expire_lem}

abbrev near_node : Bytes
near_node = replicate 16 1

abbrev old_node : Bytes
old_node = replicate 16 2

abbrev mac : Bytes
mac = replicate 6 3

abbrev old_row : Row
old_row = record {
  next_hop = mac;
  hops = 2;
  rssi = some (negsuc 69);
  first_seen = seconds 40;
  last_seen = seconds 50;
  announces = 4;
  sign_pub = some (7 ∷ []);
  encrypt_pub = some (8 ∷ []);
  name = [];
}

abbrev disk : ColdStore
disk = record { rows = (old_node, old_row) ∷ []; buf = []; last_flush = 0 }

abbrev table : RouteTable
table = record {
  own_id = none;
  ttl = seconds 100;
  max_hot = 2;
  cold = some disk;
  hot = (near_node, entry_bytes mac 0 none (seconds 120)) ∷ [];
  pending = [];
  stats = record { hot_hits = 0; cold_hits = 0; misses = 0; evictions = 0 };
}

table-IsValid : IsValid table
unfolding get
table-IsValid = record { bounded = omega arith; distinct = (refl, tt); candidates = tt }

disk-IsValid : Laws.IsValid disk
unfolding get
disk-IsValid = record { one_each = tt; primary_key = (refl, tt) }

row-InRange : InRange mac 2 (some (negsuc 69)) (seconds 50)
row-InRange = record {
  mac = refl;
  hops_fit = omega arith;
  rssi_high = omega arith;
  rssi_low = omega arith;
  seen_fits = omega arith;
}

old_known : cold_route table old_node ≡ some (route_of_row old_node old_row)
unfolding Cold.lookup get list_beq
old_known = refl

old-Fits : Fits (cold_route table old_node)
old-Fits = rw old_known row-InRange

next_hop_lem_example :
    ((next_hop old_node table).0 ≡ ok (hop_of (route old_node false table)))
    × IsValid (next_hop old_node table).1
    × (lookups (next_hop old_node table).1 ≡ 0 + 1)
next_hop_lem_example = next_hop_lem old_node table table-IsValid (omega arith) old-Fits

expire_lem_example :
    (get (expire_table (seconds 200) table).1.hot near_node
      ≡ fresh_entry (seconds 200) (seconds 100) (get table.hot near_node))
    × ((c : ColdStore) × ((expire_table (seconds 200) table).1.cold ≡ some c)
        × (get c.rows near_node ≡ fresh_row (seconds 200) (seconds 100) (get disk.rows near_node))
        × (c.buf ≡ []))
expire_lem_example = expire_lem (seconds 200) table disk near_node table-IsValid refl disk-IsValid
