-- ===== src/Routes/Table/Hot.antt =====
-- The hot table: bounded, one entry for each node, the entry just written at hand.
use wifipi.Prelude.Result.{ok}
use wifipi.Prelude.Time.{Micros}
use wifipi.Prelude.Int.{ℤ}
use wifipi.Prelude.Dict.{
  get-evict_last, Distinct-touch, Distinct-evict, length-evict, get-remove_self, set_absent, get,
  Distinct, remove, evict, Dict,
}
use wifipi.Bytes.{Bytes}
use wifipi.Prelude.{
  length-append, inr, inl, suc, ltb, some, Bool-cases, arith, ◌<◌, ap, ◌-◌, ◌+◌, ◌++◌, Option, ◌≡◌,
  ◌≤◌, ℕ, length, [], ◌∷◌, list_eq, refl,
}
use wifipi.Routes.Entry.RoundTrip.{InRange, entry_bytes, pack_entry-InRange}
use wifipi.Routes.Table.{RouteTable, trim, put_hot}

pub record IsValid (t : RouteTable) : Type 0 where
  pub bounded : length t.hot ≤ t.max_hot
  pub distinct : Distinct t.hot
  pub candidates : Distinct t.pending

-- the loop drops the oldest entries down to the limit, and counts each of them
trim-evict :
    (limit : ℕ) (d : Dict Bytes Bytes) (n : ℕ)
    → trim limit d n ≡ (evict limit d, n + (length d - length (evict limit d)))
unfolding trim evict
trim-evict limit [] n = ap (λ (m : ℕ). ([], m)) (omega arith)
trim-evict limit (x ∷ d) n = elim (Bool-cases (ltb limit (suc (length d)))) [
  | inl over ↦
      rw (over, trim-evict limit d (n + 1))
        (ap (λ (m : ℕ). (evict limit d, m)) (omega (arith, length-evict limit d)))
  | inr fits ↦ rw fits (ap (λ (m : ℕ). (x ∷ d, m)) (omega arith))
]

-- the entry, behind those that are kept
abbrev pub inserted : RouteTable → Bytes → Bytes → Dict Bytes Bytes
inserted t id v = remove id t.hot ++ (id, v) ∷ []

abbrev pub with_hot : RouteTable → Dict Bytes Bytes → ℕ → RouteTable
with_hot t hot n = record t { hot = hot; stats = record t.stats { evictions = n } }

pub put_hot-ok :
    (id next_hop : Bytes) (hops : ℕ) (rssi : Option ℤ) (last_seen : Micros) (t : RouteTable)
    → InRange next_hop hops rssi last_seen
    → let all = inserted t id (entry_bytes next_hop hops rssi last_seen) in
      put_hot id next_hop hops rssi last_seen t ≡ (
        ok tt,
        with_hot t
            (evict t.max_hot all)
            (t.stats.evictions + (length all - length (evict t.max_hot all))),
      )
unfolding put_hot
put_hot-ok id next_hop hops rssi last_seen t r =
    let v = entry_bytes next_hop hops rssi last_seen in
    rw (
      pack_entry-InRange next_hop hops rssi last_seen r,
      put_hot,
      set_absent id v (remove id t.hot) (get-remove_self id t.hot),
      trim-evict t.max_hot (inserted t id v) t.stats.evictions,
    )

-- Writing a route that is in range into a valid table with room for an entry never fails. The hot
-- table stays within its limit with one entry for each node, the route just written is read back
-- from it, and the entries that are gone are the evictions counted.
pub put_hot_lem :
    (id next_hop : Bytes) (hops : ℕ) (rssi : Option ℤ) (last_seen : Micros) (t : RouteTable)
    → InRange next_hop hops rssi last_seen
    → IsValid t
    → 0 < t.max_hot
    → let (r, t') = put_hot id next_hop hops rssi last_seen t in
      (r ≡ ok tt)
      × IsValid t'
      × (get t'.hot id ≡ some (entry_bytes next_hop hops rssi last_seen))
      × (t'.stats.evictions + length t'.hot ≡ t.stats.evictions + (length (remove id t.hot) + 1))
put_hot_lem id next_hop hops rssi last_seen t r v room =
    let bytes = entry_bytes next_hop hops rssi last_seen in
    let all = inserted t id bytes in
    let n = length-evict t.max_hot all in
    rw (put_hot-ok id next_hop hops rssi last_seen t r) (
      refl,
      record {
        bounded = omega (arith, n);
        distinct = Distinct-evict t.max_hot all (Distinct-touch id bytes t.hot v.distinct);
        candidates = v.candidates;
      },
      get-evict_last t.max_hot id bytes (remove id t.hot) room (get-remove_self id t.hot),
      omega (arith, n, length-append (remove id t.hot) ((id, bytes) ∷ [])),
    )
