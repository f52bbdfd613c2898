-- ===== src/Routes/Table/Warm/Tests.antt =====
-- A warm start from a store with three routes, into a hot table for two.
use wifipi.Prelude.Equality.{list_beq}
use wifipi.Prelude.{
  ◌<◌, ◌≤◌, length, replicate, All, refl, ℕ, ◌≡◌, arith, ◌∷◌, [], some, none, list_eq,
}
use wifipi.Prelude.Result.{ok}
use wifipi.Prelude.Dict.{AllValues-get, get}
use wifipi.Prelude.Sort.{sort, insert}
use wifipi.Prelude.Time.{seconds}
use wifipi.Prelude.Int.{negsuc}
use wifipi.Bytes.{Bytes}
use wifipi.Routes.Entry.RoundTrip.{entry_bytes}
use wifipi.Routes.Cold.{ColdStore, Row}
use wifipi.Routes.Table.{RouteTable, put_hot}
use wifipi.Routes.Table.Warm.{warm}
use wifipi.Routes.Table.Warm.Stable.{newest, newest-IsNewestFirst}
use wifipi.Routes.Table.Warm.Fill.{RowFits, warmed}
use wifipi.Routes.Table.Warm.Newest.{IsFresh, shown, warm_lem, warm_evicts_newest}

abbrev row : ℕ → Row
row n = record {
  next_hop = replicate 6 n;
  hops = 1;
  rssi = some (negsuc 59);
  first_seen = seconds n;
  last_seen = seconds n;
  announces = 1;
  sign_pub = none;
  encrypt_pub = none;
  name = [];
}

abbrev node : ℕ → Bytes
node n = replicate 16 n

abbrev store : ColdStore
store = record {
  rows = (node 1, row 1) ∷ (node 3, row 3) ∷ (node 2, row 2) ∷ [];
  buf = [];
  last_flush = 0;
}

abbrev table : RouteTable
table = record {
  own_id = none;
  ttl = seconds 604_800;
  max_hot = 2;
  cold = some store;
  hot = [];
  pending = [];
  stats = record { hot_hits = 0; cold_hits = 0; misses = 0; evictions = 0 };
}

row-RowFits : (n : ℕ) → n < 100 → RowFits (row n)
row-RowFits n h = record {
  mac = refl;
  hops_fit = omega arith;
  rssi_high = omega arith;
  rssi_low = omega arith;
  seen_fits = omega arith;
}

table-IsFresh : IsFresh table store
unfolding get list_beq
table-IsFresh = record {
  store = refl;
  empty = refl;
  keyed = (refl, (refl, (refl, tt)));
  fit = λ id r h. AllValues-get RowFits id r store.rows h (
    row-RowFits 1 (omega arith),
    (row-RowFits 3 (omega arith), (row-RowFits 2 (omega arith), tt)),
  );
}

warm_lem_example : warm newest none table ≡ (
  ok (length (shown newest newest-IsNewestFirst table store table-IsFresh)),
  record table { hot = warmed (shown newest newest-IsNewestFirst table store table-IsFresh) },
)
warm_lem_example = warm_lem newest newest-IsNewestFirst table store table-IsFresh

warm_evicts_newest_example :
    let t1 = (warm newest none table).1 in
    let t2 = (put_hot (node 4) (row 4).next_hop (row 4).hops (row 4).rssi (row 4).last_seen t1).1 in
    (get t1.hot (node 3)
      ≡ some (entry_bytes (row 3).next_hop (row 3).hops (row 3).rssi (row 3).last_seen))
    × (get t2.hot (node 3) ≡ none)
    × All
        (λ (e : Bytes × Row). e.1.last_seen ≤ (row 3).last_seen)
        ((node 2, row 2) ∷ (node 1, row 1) ∷ [])
unfolding sort insert get list_beq
warm_evicts_newest_example =
    warm_evicts_newest newest table store (node 3) (row 3) ((node 2, row 2) ∷ (node 1, row 1) ∷ [])
      1 (node 4) (row 4) newest-IsNewestFirst table-IsFresh refl refl (omega arith) refl
      (row-RowFits 4 (omega arith))
