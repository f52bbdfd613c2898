-- ===== src/Routes/Table/Lookup/Answers.antt =====
-- `next_hop` against `get`.
use wifipi.Prelude.{
  length-append, ℕ, ◌+◌, ◌<◌, ◌≡◌, refl, Option, none, some, false, list_eq, [], ◌∷◌, ◌++◌, inl,
  inr, arith, Option-cases,
}
use wifipi.Prelude.Result.{ok, and_then}
use wifipi.Prelude.Dict.{get, remove, set_absent, get-remove_self, Distinct-touch, length-remove}
use wifipi.Bytes.{Bytes}
use wifipi.Routes.Entry.{Route}
use wifipi.Routes.Entry.RoundTrip.{InRange}
use wifipi.Routes.Table.{RouteTable, put_hot}
use wifipi.Routes.Table.Hot.{IsValid, put_hot_lem}
use wifipi.Routes.Table.Lookup.{hot_or_cold, cold_route, route_of_entry, route, next_hop}

abbrev pub hop_of : Option Route → Option Bytes
hop_of none = none
hop_of (some r) = some r.next_hop

-- A route of the cold store can be held in the hot table.
abbrev pub Fits : Option Route → Type 0
Fits none = Unit
Fits (some r) = InRange r.next_hop r.hops r.rssi r.last_seen

-- The look-ups that the statistics count.
abbrev pub lookups : RouteTable → ℕ
lookups t = t.stats.hot_hits + t.stats.cold_hits + t.stats.misses

lookups-put_hot :
    (id : Bytes) (r : Route) (t : RouteTable)
    → lookups (put_hot id r.next_hop r.hops r.rssi r.last_seen t).1 ≡ lookups t
unfolding put_hot
lookups-put_hot id r t = ground arith

-- The branches of `next_hop` and `get`.
next_hop_hot :
    (id e : Bytes) (t : RouteTable)
    → get t.hot id ≡ some e
    → next_hop id t ≡ (
      ok (some (route_of_entry id e).next_hop),
      record t {
        hot = remove id t.hot ++ (id, e) ∷ [];
        stats = record t.stats { hot_hits = t.stats.hot_hits + 1 };
      },
    )
unfolding next_hop route_of_entry
next_hop_hot id e t there =
    rw (there, next_hop, set_absent id e (remove id t.hot) (get-remove_self id t.hot)) refl

next_hop_unknown :
    (id : Bytes) (t : RouteTable)
    → get t.hot id ≡ none
    → cold_route t id ≡ none
    → next_hop id t ≡ (ok none, record t { stats = record t.stats { misses = t.stats.misses + 1 } })
unfolding next_hop
next_hop_unknown id t absent unknown = rw (absent, next_hop, unknown) refl

next_hop_cold :
    (id : Bytes) (r : Route) (t : RouteTable)
    → get t.hot id ≡ none
    → cold_route t id ≡ some r
    → let t1 = record t { stats = record t.stats { cold_hits = t.stats.cold_hits + 1 } } in
      (put_hot r.node_id r.next_hop r.hops r.rssi r.last_seen t1).0 ≡ ok tt
      → next_hop id t
        ≡ (ok (some r.next_hop), (put_hot r.node_id r.next_hop r.hops r.rssi r.last_seen t1).1)
unfolding next_hop
next_hop_cold id r t absent found fine = rw (absent, next_hop, found, fine, and_then) refl

route_hot :
    (id e : Bytes) (t : RouteTable)
    → get t.hot id ≡ some e
    → route id false t ≡ some (route_of_entry id e)
unfolding route
route_hot id e t there = rw (there, route, hot_or_cold) refl

route_cold :
    (id : Bytes) (t : RouteTable) → get t.hot id ≡ none → route id false t ≡ cold_route t id
unfolding route
route_cold id t absent = ground (arith, absent)

-- On a valid table with room for an entry, `next_hop` never fails where the route of the cold store
-- fits an entry, and answers with the next hop of the route that `get` shows. It keeps the table
-- valid, and counts each look-up once, as a hot hit, a cold hit or a miss.
pub next_hop_lem :
    (id : Bytes) (t : RouteTable)
    → IsValid t
    → 0 < t.max_hot
    → Fits (cold_route t id)
    → ((next_hop id t).0 ≡ ok (hop_of (route id false t)))
      × IsValid (next_hop id t).1
      × (lookups (next_hop id t).1 ≡ lookups t + 1)
next_hop_lem id t v room fits = elim (Option-cases (get t.hot id)) [
  | inr (e, there) ↦
      rw (next_hop_hot id e t there, route_hot id e t there)
        (
          refl,
          record {
            bounded = omega (
              arith,
              v.bounded,
              length-remove id e t.hot v.distinct there,
              length-append (remove id t.hot) ((id, e) ∷ []),
            );
            distinct = Distinct-touch id e t.hot v.distinct;
            candidates = v.candidates;
          },
          omega arith,
        )
  | inl absent ↦ elim (Option-cases (cold_route t id)) [
    | inl unknown ↦
        rw (next_hop_unknown id t absent unknown, route_cold id t absent, unknown)
          (
            refl,
            record { bounded = v.bounded; distinct = v.distinct; candidates = v.candidates },
            omega arith,
          )
    | inr (r, found) ↦
        let t1 = record t { stats = record t.stats { cold_hits = t.stats.cold_hits + 1 } } in
        let (fine, valid, there, n) =
          put_hot_lem r.node_id r.next_hop r.hops r.rssi r.last_seen t1 (rw found at fits)
            (record { bounded = v.bounded; distinct = v.distinct; candidates = v.candidates })
            room in
        let counted = lookups-put_hot r.node_id r t1 in
        rw (next_hop_cold id r t absent found fine, route_cold id t absent, found)
          (refl, valid, omega (arith, counted))
  ]
]
