-- ===== src/Routes/Cold.antt =====
-- `ColdStore`: every route ever heard, as the rows of an sqlite table under a write buffer.
pub mod Laws
pub mod Replay
pub mod Refinement
pub mod Tests
use wifipi.Prelude.Int.{ℤ}
use wifipi.Prelude.Time.{Micros}
use wifipi.Prelude.Dict.{get, set, Dict}
use wifipi.Bytes.{Bytes}
use wifipi.Prelude.{
  ◌&&◌, ◌-◌, leb, ◌+◌, not, length, nat_beq, ltb, if◌then◌else◌, some, ℕ, Option, none, [], ◌∷◌,
  list_eq,
}
use wifipi.Routes.Entry.{Name, Route, flush_seconds, flush_entries}

-- a row of the table `routes`, but for its key `node_id`
pub record Row : Type 0 where
  pub next_hop : Bytes
  pub hops : ℕ
  pub rssi : Option ℤ
  pub first_seen : Micros
  pub last_seen : Micros
  pub announces : ℕ
  pub sign_pub : Option Bytes
  pub encrypt_pub : Option Bytes
  pub name : Name

-- what an announce carries beside the route
pub record Extras : Type 0 where
  pub sign_pub : Option Bytes
  pub encrypt_pub : Option Bytes
  pub name : Name

abbrev pub no_extras : Extras
no_extras = record { sign_pub = none; encrypt_pub = none; name = [] }

-- a value of `_buf`
pub record Buffered : Type 0 where
  pub next_hop : Bytes
  pub hops : ℕ
  pub rssi : Option ℤ
  pub last_seen : Micros
  pub extras : Extras

pub record ColdStore : Type 0 where
  pub rows : Dict Bytes Row
  pub buf : Dict Bytes Buffered
  pub last_flush : Micros

-- Python's `a or b` on an optional byte string and on a string: the empty ones count as missing
abbrev pub or_bytes : Option Bytes → Option Bytes → Option Bytes
or_bytes none b = b
or_bytes (some []) b = b
or_bytes (some (x ∷ xs)) b = some (x ∷ xs)

abbrev pub or_name : Name → Name → Name
or_name [] b = b
or_name (x ∷ xs) b = x ∷ xs

-- `COALESCE(a, b)`
abbrev pub coalesce : Option Bytes → Option Bytes → Option Bytes
coalesce none b = b
coalesce (some a) b = some a

abbrev pub merge : Option Buffered → Extras → Extras
merge none x = x
merge (some prev) x = record {
  sign_pub = or_bytes x.sign_pub prev.extras.sign_pub;
  encrypt_pub = or_bytes x.encrypt_pub prev.extras.encrypt_pub;
  name = or_name x.name prev.extras.name;
}

-- the `INSERT ... ON CONFLICT(node_id) DO UPDATE` of one row
abbrev pub upsert : Option Row → Buffered → Row
upsert none b = record {
  next_hop = b.next_hop;
  hops = b.hops;
  rssi = b.rssi;
  first_seen = b.last_seen;
  last_seen = b.last_seen;
  announces = 1;
  sign_pub = b.extras.sign_pub;
  encrypt_pub = b.extras.encrypt_pub;
  name = b.extras.name;
}
upsert (some row) b = record {
  next_hop = b.next_hop;
  hops = b.hops;
  rssi = b.rssi;
  first_seen = row.first_seen;
  last_seen = b.last_seen;
  announces = row.announces + 1;
  sign_pub = coalesce b.extras.sign_pub row.sign_pub;
  encrypt_pub = coalesce b.extras.encrypt_pub row.encrypt_pub;
  name = or_name b.extras.name row.name;
}

-- `executemany` over the buffer
unfoldable pub upsert_all : Dict Bytes Buffered → Dict Bytes Row → Dict Bytes Row
upsert_all [] rows = rows
upsert_all ((id, b) ∷ buf) rows = upsert_all buf (set id (upsert (get rows id) b) rows)

-- `now` is the reading of `time.monotonic`
unfoldable pub flush : Micros → ColdStore → ℕ × ColdStore
flush now c =
    if nat_beq (length c.buf) 0
    then (0, record c { last_flush = now })
    else (length c.buf, record { rows = upsert_all c.buf c.rows; buf = []; last_flush = now })

unfoldable pub buffer :
    Micros → Bytes → Bytes → ℕ → Option ℤ → Micros → Extras → ColdStore → ColdStore
buffer now id next_hop hops rssi last_seen extras c =
    let c' = record c {
      buf =
          set id
            (record {
              next_hop = next_hop;
              hops = hops;
              rssi = rssi;
              last_seen = last_seen;
              extras = merge (get c.buf id) extras;
            })
            c.buf;
    } in
    if leb flush_entries (length c'.buf) then (flush now c').1 else c'

unfoldable pub maybe_flush : Micros → ColdStore → ℕ × ColdStore
maybe_flush now c =
    if not (nat_beq (length c.buf) 0) && leb (c.last_flush + flush_seconds) now
    then flush now c
    else (0, c)

-- the defaults of `Route.__init__` for a record that is still in the buffer
abbrev pub route_of_buffered : Bytes → Buffered → Route
route_of_buffered id b = record {
  node_id = id;
  next_hop = b.next_hop;
  hops = b.hops;
  rssi = b.rssi;
  last_seen = b.last_seen;
  first_seen = b.last_seen;
  announces = 1;
  sign_pub = b.extras.sign_pub;
  encrypt_pub = b.extras.encrypt_pub;
  name = b.extras.name;
}

abbrev pub route_of_row : Bytes → Row → Route
route_of_row id row = record {
  node_id = id;
  next_hop = row.next_hop;
  hops = row.hops;
  rssi = row.rssi;
  last_seen = row.last_seen;
  first_seen = row.first_seen;
  announces = row.announces;
  sign_pub = row.sign_pub;
  encrypt_pub = row.encrypt_pub;
  name = row.name;
}

-- the unflushed buffer first
unfoldable pub lookup : ColdStore → Bytes → Option Route
lookup c id = elim (get c.buf id) [
  | some b ↦ some (route_of_buffered id b)
  | none ↦ elim (get c.rows id) [ none ↦ none | some row ↦ some (route_of_row id row) ]
]

-- the rows that `DELETE ... WHERE last_seen < now - ttl` leaves; `now` is the reading of `time.time`
unfoldable pub fresh_rows : Micros → Micros → Dict Bytes Row → Dict Bytes Row
fresh_rows now ttl [] = []
fresh_rows now ttl ((id, row) ∷ rows) =
    let rest = fresh_rows now ttl rows in
    if ltb (row.last_seen + ttl) now then rest else (id, row) ∷ rest

unfoldable pub expire : Micros → Micros → ColdStore → ℕ × ColdStore
expire now ttl c =
    let kept = fresh_rows now ttl c.rows in (length c.rows - length kept, record c { rows = kept })
