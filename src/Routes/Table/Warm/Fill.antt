-- ===== src/Routes/Table/Warm/Fill.antt =====
-- What a node that has just started has in its hot table.
use mathlib.Core.List.{append_assoc, append-nil}
use wifipi.Prelude.Result.{and_then, ok}
use wifipi.Prelude.{
  sym, ◌∙◌, length-append, ◌<◌, eq_iff, refl, arith, suc, [], ap, ◌∷◌, ◌≤◌, ◌++◌, none, ◌+◌, leb, ℕ,
  Bool, length, ◌≡◌, list_eq,
}
use wifipi.Prelude.Dict.{
  evict_of_length-le, remove_absent, get-append, Dict, get, Distinct, AllValues,
}
use wifipi.Prelude.Sort.{IsSorted}
use wifipi.Bytes.{Bytes}
use wifipi.Routes.Entry.RoundTrip.{InRange, entry_bytes}
use wifipi.Routes.Cold.{Row}
use wifipi.Routes.Table.{RouteTable, put_hot}
use wifipi.Routes.Table.Hot.{with_hot, inserted, put_hot-ok}
use wifipi.Routes.Table.Warm.{warm_rows}

-- A row that fits an entry of the hot table.
abbrev pub RowFits : Row → Type 0
RowFits r = InRange r.next_hop r.hops r.rssi r.last_seen

-- a row heard no earlier than another
abbrev pub no_older : Bytes × Row → Bytes × Row → Bool
no_older a b = leb b.1.last_seen a.1.last_seen

-- What `ORDER BY last_seen DESC` does: the same rows, once each, the newest first.
pub record IsNewestFirst (newest_first : Dict Bytes Row → Dict Bytes Row) : Type 0 where
  pub sorted : (d : Dict Bytes Row) → IsSorted no_older (newest_first d)
  pub distinct : (d : Dict Bytes Row) → Distinct d → Distinct (newest_first d)
  pub rows : (d : Dict Bytes Row) (id : Bytes) → Distinct d → get (newest_first d) id ≡ get d id

-- the entries of the hot table for these rows
abbrev pub warmed : Dict Bytes Row → Dict Bytes Bytes
warmed [] = []
warmed ((id, r) ∷ rows) = (id, entry_bytes r.next_hop r.hops r.rssi r.last_seen) ∷ warmed rows

pub length-warmed : (rows : Dict Bytes Row) → length (warmed rows) ≡ length rows
length-warmed [] = refl
length-warmed ((id, r) ∷ rows) = ap suc (length-warmed rows)

-- none of these keys stands in the dictionary
abbrev pub AllAbsent : Dict Bytes Row → Dict Bytes Bytes → Type 0
AllAbsent [] hot = Unit
AllAbsent ((id, r) ∷ rows) hot = (get hot id ≡ none) × AllAbsent rows hot

AllAbsent-append :
    (id v : Bytes) (rows : Dict Bytes Row) (hot : Dict Bytes Bytes)
    → get rows id ≡ none
    → get hot id ≡ none
    → AllAbsent rows hot
    → AllAbsent rows (hot ++ (id, v) ∷ [])
unfolding get
AllAbsent-append id v [] hot g h a = tt
AllAbsent-append id v ((j, r) ∷ rows) hot g h a =
    ground (arith, eq_iff j id, eq_iff id j, get-append id j v hot, AllAbsent-append id v rows hot)

plus_zero : (n : ℕ) → n ≡ n + 0
plus_zero n = omega arith

put_hot_absent :
    (id : Bytes) (r : Row) (t : RouteTable)
    → RowFits r
    → get t.hot id ≡ none
    → length t.hot < t.max_hot
    → put_hot id r.next_hop r.hops r.rssi r.last_seen t ≡ (
      ok tt,
      record t { hot = t.hot ++ (id, entry_bytes r.next_hop r.hops r.rssi r.last_seen) ∷ [] },
    )
put_hot_absent id r t f h room =
    let v = entry_bytes r.next_hop r.hops r.rssi r.last_seen in
    let all = t.hot ++ (id, v) ∷ [] in
    let same : inserted t id v ≡ all = ap (λ d. d ++ (id, v) ∷ []) (remove_absent id t.hot h) in
    let n : length all ≤ t.max_hot = omega (arith, length-append t.hot ((id, v) ∷ []), room) in
    put_hot-ok id r.next_hop r.hops r.rssi r.last_seen t f
    ∙ rw (same, evict_of_length-le t.max_hot all n)
        (ap (λ (k : ℕ). (ok tt, with_hot t all k)) (omega arith))

pub warm_rows-append :
    (rows : Dict Bytes Row) (n : ℕ) (t : RouteTable)
    → AllValues RowFits rows
    → Distinct rows
    → AllAbsent rows t.hot
    → length t.hot + length rows ≤ t.max_hot
    → warm_rows rows n t ≡ (ok (n + length rows), record t { hot = t.hot ++ warmed rows })
unfolding warm_rows
warm_rows-append [] n t f u a room =
    let none_more = sym (append-nil t.hot) in
    λ i. (ok (plus_zero n i), record t { hot = none_more i })
warm_rows-append ((id, r) ∷ rows) n t f u a room =
    let v = entry_bytes r.next_hop r.hops r.rssi r.last_seen in
    let t1 = record t { hot = t.hot ++ (id, v) ∷ [] } in
    let n1 : length t1.hot ≡ length t.hot + 1 = length-append t.hot ((id, v) ∷ []) in
    rw
      (
        warm_rows,
        put_hot_absent id r t f.0 a.0 (omega (arith, room)),
        and_then,
        warm_rows-append rows (n + 1) t1 f.1 u.1 (AllAbsent-append id v rows t.hot u.0 a.0 a.1)
            (omega (arith, n1, room)),
        append_assoc t.hot ((id, v) ∷ []) (warmed rows),
      )
      (ap (λ (k : ℕ). (ok k, record t { hot = t.hot ++ (id, v) ∷ warmed rows })) (omega arith))
