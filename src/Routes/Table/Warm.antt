-- ===== src/Routes/Table/Warm.antt =====
-- `ColdStore.recent` and `RouteTable.warm`, which fills the hot table when a node starts, and `close`.
pub mod Fill
pub mod Newest
pub mod Stable
mod Tests
use wifipi.Prelude.Result.{ok, Result, and_then}
use wifipi.Prelude.Time.{Micros}
use wifipi.Prelude.{
  nat_beq, if◌then◌else◌, none, take, some, Option, ℕ, [], ◌∷◌, ◌+◌, length, list_eq,
}
use wifipi.Prelude.Dict.{Dict}
use wifipi.Bytes.{Bytes}
use wifipi.Routes.Cold.{ColdStore, Row, flush}
use wifipi.Routes.Table.{RouteTable, put_hot}

-- `recent`; `newest_first` is what `ORDER BY last_seen DESC` of sqlite does to the rows
unfoldable pub recent : (Dict Bytes Row → Dict Bytes Row) → ℕ → ColdStore → Dict Bytes Row
recent newest_first limit c = take limit (newest_first c.rows)

-- the loop of `warm`, with its counter
unfoldable pub warm_rows : Dict Bytes Row → ℕ → RouteTable → Result ℕ × RouteTable
warm_rows [] n t = (ok n, t)
warm_rows ((id, row) ∷ rows) n t =
    and_then (put_hot id row.next_hop row.hops row.rssi row.last_seen t)
      (λ _ t'. warm_rows rows (n + 1) t')

-- `limit or self.max_hot`
abbrev pub limit_or : Option ℕ → ℕ → ℕ
limit_or none max_hot = max_hot
limit_or (some n) max_hot = if nat_beq n 0 then max_hot else n

unfoldable pub warm :
    (Dict Bytes Row → Dict Bytes Row) → Option ℕ → RouteTable → Result ℕ × RouteTable
warm newest_first limit t = elim t.cold [
  | none ↦ (ok 0, t)
  | some c ↦ warm_rows (recent newest_first (limit_or limit t.max_hot) c) 0 t
]

-- the flush of `close`; `now` is the reading of `time.monotonic`
unfoldable pub close : Micros → RouteTable → RouteTable
close now t = record t { cold = elim t.cold [ none ↦ none | some c ↦ some (flush now c).1 ] }
