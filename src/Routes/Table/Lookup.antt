-- ===== src/Routes/Table/Lookup.antt =====
-- `RouteTable`'s look-ups, and its `expire`.
pub mod Answers
pub mod Expiry
mod Tests
use wifipi.Prelude.{
  ℕ, ◌+◌, ◌*◌, Bool, Option, none, some, List, [], ◌∷◌, nat_beq, length, ltb, list_eq,
  if◌then◌else◌,
}
use wifipi.Prelude.Int.{ℤ, pos, negsuc}
use wifipi.Prelude.Result.{Result, ok, and_then}
use wifipi.Prelude.Time.{Micros, seconds}
use wifipi.Prelude.Dict.{Dict, get, set, remove}
use wifipi.Bytes.{Bytes}
use wifipi.Routes.Entry.{Route, unpack_entry, bytes_per_entry}
use wifipi.Routes.Cold
use wifipi.Routes.Cold.{ColdStore}
use wifipi.Routes.Table.{RouteTable, Clocks, put_hot}

-- `None if rssi == -128 else rssi`
abbrev pub known_rssi : ℤ → Option ℤ
known_rssi (pos n) = some (pos n)
known_rssi (negsuc n) = if nat_beq n 127 then none else some (negsuc n)

-- the `Route` of an entry of the hot table, with the defaults of `Route.__init__`
unfoldable pub route_of_entry : Bytes → Bytes → Route
route_of_entry id v =
    let (next_hop, (hops, (rssi, (seen, end)))) = unpack_entry v in
    record {
      node_id = id;
      next_hop = next_hop;
      hops = hops;
      rssi = known_rssi rssi;
      last_seen = seconds seen;
      first_seen = seconds seen;
      announces = 1;
      sign_pub = none;
      encrypt_pub = none;
      name = [];
    }

-- `self.cold.get(node_id) if self.cold else None`
abbrev pub cold_route : RouteTable → Bytes → Option Route
cold_route t id = elim t.cold [ none ↦ none | some c ↦ Cold.lookup c id ]

abbrev pub hot_or_cold : RouteTable → Bytes → Option Route
hot_or_cold t id = elim (get t.hot id) [
  | none ↦ cold_route t id
  | some v ↦ some (route_of_entry id v)
]

-- `get`; `full` asks the cold store first
unfoldable pub route : Bytes → Bool → RouteTable → Option Route
route id full t = elim (if full then cold_route t id else none) [
  | some r ↦ some r
  | none ↦ hot_or_cold t id
]

abbrev missed : RouteTable → Result (Option Bytes) × RouteTable
missed t = (ok none, record t { stats = record t.stats { misses = t.stats.misses + 1 } })

unfoldable pub next_hop : Bytes → RouteTable → Result (Option Bytes) × RouteTable
next_hop id t = elim (get t.hot id) [
  | some v ↦ (
    ok (some (unpack_entry v).0),
    record t {
      hot = set id v (remove id t.hot);
      stats = record t.stats { hot_hits = t.stats.hot_hits + 1 };
    },
  )
  | none ↦ elim (cold_route t id) [
    | none ↦ missed t
    | some r ↦
        and_then
          (put_hot r.node_id r.next_hop r.hops r.rssi r.last_seen
            (record t { stats = record t.stats { cold_hits = t.stats.cold_hits + 1 } }))
          (λ _ t'. (ok (some r.next_hop), t'))
  ]
]

unfoldable pub keys_for : Bytes → RouteTable → Option Bytes × Option Bytes
keys_for id t = elim (cold_route t id) [
  | none ↦ (none, none)
  | some r ↦ (r.sign_pub, r.encrypt_pub)
]

abbrev pub memory_bytes : RouteTable → ℕ
memory_bytes t = length t.hot * bytes_per_entry

-- whether an entry's second is before `now - ttl`
unfoldable pub is_stale : Micros → Micros → Bytes → Bool
is_stale now ttl v =
    let (next_hop, (hops, (rssi, (seen, end)))) = unpack_entry v in ltb (seconds seen + ttl) now

unfoldable pub dead_ids : Micros → Micros → Dict Bytes Bytes → List Bytes
dead_ids now ttl [] = []
dead_ids now ttl ((id, v) ∷ d) =
    let rest = dead_ids now ttl d in if is_stale now ttl v then id ∷ rest else rest

-- `for nid in dead: del self._hot[nid]`
unfoldable pub remove_all : List Bytes → Dict Bytes Bytes → Dict Bytes Bytes
remove_all [] d = d
remove_all (id ∷ ids) d = remove_all ids (remove id d)

-- `now` is the reading of `time.time`
unfoldable pub expire_table : Micros → RouteTable → List Bytes × RouteTable
expire_table now t =
    let dead = dead_ids now t.ttl t.hot in
    (
      dead,
      record t {
        hot = remove_all dead t.hot;
        cold = elim t.cold [ none ↦ none | some c ↦ some (Cold.expire now t.ttl c).1 ];
      },
    )
