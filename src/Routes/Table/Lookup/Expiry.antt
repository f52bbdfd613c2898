-- ===== src/Routes/Table/Lookup/Expiry.antt =====
-- What `expire` leaves.
use wifipi.Prelude.{
  ◌≡◌, refl, Bool, false, Option, none, some, List, [], ◌∷◌, ◌||◌, ◌==◌, list_eq, eq_iff,
  if◌then◌else◌, arith, ltb, ◌+◌,
}
use wifipi.Prelude.Time.{Micros}
use wifipi.Prelude.Dict.{Dict, get, remove, get-remove, Distinct}
use wifipi.Bytes.{Bytes}
use wifipi.Routes.Cold.{Row, ColdStore, fresh_rows, expire}
use wifipi.Routes.Cold.Laws
use wifipi.Routes.Table.{RouteTable}
use wifipi.Routes.Table.Hot.{IsValid}
use wifipi.Routes.Table.Lookup.{is_stale, dead_ids, remove_all, expire_table}

abbrev is_among : Bytes → List Bytes → Bool
is_among id [] = false
is_among id (x ∷ xs) = (x == id) || is_among id xs

-- An entry, unless it is past the time to live.
abbrev pub fresh_entry : Micros → Micros → Option Bytes → Option Bytes
fresh_entry now ttl none = none
fresh_entry now ttl (some v) = if is_stale now ttl v then none else some v

abbrev pub fresh_row : Micros → Micros → Option Row → Option Row
fresh_row now ttl none = none
fresh_row now ttl (some row) = if ltb (row.last_seen + ttl) now then none else some row

abbrev stale_entry : Micros → Micros → Option Bytes → Bool
stale_entry now ttl none = false
stale_entry now ttl (some v) = is_stale now ttl v

get-remove_all :
    (id : Bytes) (ids : List Bytes) (d : Dict Bytes Bytes)
    → get (remove_all ids d) id ≡ (if is_among id ids then none else get d id)
unfolding remove_all
get-remove_all id [] d = refl
get-remove_all id (x ∷ ids) d =
    ground (arith, get-remove_all id ids (remove x d), get-remove x id d)

is_among-dead_ids :
    (now ttl : Micros) (id : Bytes) (d : Dict Bytes Bytes)
    → Distinct d
    → is_among id (dead_ids now ttl d) ≡ stale_entry now ttl (get d id)
unfolding dead_ids get
is_among-dead_ids now ttl id [] u = refl
is_among-dead_ids now ttl id ((i, v) ∷ d) u =
    ground (arith, eq_iff i id, is_among-dead_ids now ttl id d u.1)

pub get-fresh_rows :
    (now ttl : Micros) (id : Bytes) (rows : Dict Bytes Row)
    → Distinct rows
    → get (fresh_rows now ttl rows) id ≡ fresh_row now ttl (get rows id)
unfolding fresh_rows get
get-fresh_rows now ttl id [] u = refl
get-fresh_rows now ttl id ((i, row) ∷ rows) u =
    ground (arith, eq_iff i id, get-fresh_rows now ttl id rows u.1)

get-alive :
    (now ttl : Micros) (id : Bytes) (d : Dict Bytes Bytes)
    → Distinct d
    → get (remove_all (dead_ids now ttl d) d) id ≡ fresh_entry now ttl (get d id)
get-alive now ttl id d u =
    rw (get-remove_all id (dead_ids now ttl d) d, is_among-dead_ids now ttl id d u)
      (at_entry (get d id))
  where
    at_entry :
        (e : Option Bytes) → (if stale_entry now ttl e then none else e) ≡ fresh_entry now ttl e
    at_entry none = refl
    at_entry (some v) = refl

-- On valid tables, `expire` drops exactly what is past the time to live: a node's entry of the hot
-- table stays if and as it was within it, and so does its row on disk.
pub expire_lem :
    (now : Micros) (t : RouteTable) (c : ColdStore) (id : Bytes)
    → IsValid t
    → t.cold ≡ some c
    → Laws.IsValid c
    → (get (expire_table now t).1.hot id ≡ fresh_entry now t.ttl (get t.hot id))
      × ((c' : ColdStore) × ((expire_table now t).1.cold ≡ some c')
          × (get c'.rows id ≡ fresh_row now t.ttl (get c.rows id))
          × (c'.buf ≡ c.buf))
unfolding expire_table
expire_lem now t c id v cold w = (
  get-alive now t.ttl id t.hot v.distinct,
  (
    (expire now t.ttl c).1,
    rw cold refl,
    unfold expire in get-fresh_rows now t.ttl id c.rows w.primary_key,
    unfold expire in refl,
  ),
)
