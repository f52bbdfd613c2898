-- ===== src/Routes/Table/Warm/Newest.antt =====
-- A warm start loads the newest routes, and the newest of them is the first to be evicted.
use wifipi.Prelude.{
  Option, subst, leb→le, length-append, ◌++◌, length-take, ap, lt→ltb, eq_iff, ◌≤◌, ◌∙◌, refl,
  arith, ltb, sym, eq_refl, All, All-take, ◌+◌, ◌∷◌, zero, true, some, length, ◌≡◌, ℕ, take, [],
  none, list_eq, suc,
}
use wifipi.Prelude.Result.{ok, Result}
use wifipi.Prelude.Dict.{
  remove_absent, remove, Dict, get, evict, evict_of_length-le, Distinct, AllValues, get-append,
}
use wifipi.Prelude.Sort.{IsSorted}
use wifipi.Bytes.{Bytes}
use wifipi.Routes.Entry.RoundTrip.{entry_bytes}
use wifipi.Routes.Cold.{ColdStore, Row}
use wifipi.Routes.Table.{RouteTable, put_hot}
use wifipi.Routes.Table.Hot.{put_hot-ok}
use wifipi.Routes.Table.Warm.{recent, warm_rows, warm}
use wifipi.Routes.Table.Warm.Fill.{
  RowFits, no_older, IsNewestFirst, warmed, length-warmed, AllAbsent, warm_rows-append,
}

-- All rows of a store fit an entry.
abbrev pub AllRowsFit : Dict Bytes Row → Type 0
AllRowsFit rows = (id : Bytes) (r : Row) → get rows id ≡ some r → RowFits r

AllRowsFit-AllValues :
    (rows : Dict Bytes Row) → Distinct rows → AllRowsFit rows → AllValues RowFits rows
unfolding get
AllRowsFit-AllValues [] u f = tt
AllRowsFit-AllValues ((id, r) ∷ rows) u f = (
  f id r (rw (eq_refl id) refl),
  AllRowsFit-AllValues rows u.1 (λ j s h. f j s (ground (arith, eq_iff id j, u.0, h))),
)

get-take_absent :
    (n : ℕ) (id : Bytes) (rows : Dict Bytes Row) → get rows id ≡ none → get (take n rows) id ≡ none
unfolding get
get-take_absent zero id rows h = refl
get-take_absent (suc n) id [] h = refl
get-take_absent (suc n) id ((j, r) ∷ rows) h = ground (arith, get-take_absent n id rows)

Distinct-take : (n : ℕ) (rows : Dict Bytes Row) → Distinct rows → Distinct (take n rows)
Distinct-take zero rows u = tt
Distinct-take (suc n) [] u = tt
Distinct-take (suc n) ((j, r) ∷ rows) u = (get-take_absent n j rows u.0, Distinct-take n rows u.1)

AllValues-take :
    (n : ℕ) (rows : Dict Bytes Row) → AllValues RowFits rows → AllValues RowFits (take n rows)
AllValues-take zero rows a = tt
AllValues-take (suc n) [] a = tt
AllValues-take (suc n) ((j, r) ∷ rows) a = (a.0, AllValues-take n rows a.1)

IsSorted-take :
    (n : ℕ) (rows : Dict Bytes Row) → IsSorted no_older rows → IsSorted no_older (take n rows)
IsSorted-take zero rows s = tt
IsSorted-take (suc n) [] s = tt
IsSorted-take (suc n) (x ∷ rows) s =
    (All-take (λ y. no_older x y ≡ true) n rows s.0, IsSorted-take n rows s.1)

AllAbsent-nil : (rows : Dict Bytes Row) → AllAbsent rows []
unfolding get
AllAbsent-nil [] = tt
AllAbsent-nil (x ∷ rows) = (refl, AllAbsent-nil rows)

-- A table as `__init__` leaves it, over a store.
pub record IsFresh (t : RouteTable) (c : ColdStore) : Type 0 where
  pub store : t.cold ≡ some c
  pub empty : t.hot ≡ []
  pub keyed : Distinct c.rows
  pub fit : AllRowsFit c.rows

zero_plus : (n : ℕ) → 0 + n ≡ n
zero_plus n = omega arith

module _ (newest_first : Dict Bytes Row → Dict Bytes Row) (o : IsNewestFirst newest_first)
    (t : RouteTable) (c : ColdStore) (f : IsFresh t c) where
  abbrev pub shown : Dict Bytes Row
  shown = take t.max_hot (newest_first c.rows)

  fresh-AllAbsent : AllAbsent shown t.hot
  fresh-AllAbsent = rw f.empty (AllAbsent-nil shown)

  pub distinct_shown : Distinct shown
  distinct_shown = Distinct-take t.max_hot (newest_first c.rows) (o.distinct c.rows f.keyed)

  fit_shown : AllValues RowFits shown
  fit_shown =
      let all : AllRowsFit (newest_first c.rows) =
        λ id r h. f.fit id r (sym (o.rows c.rows id f.keyed) ∙ h) in
      AllValues-take t.max_hot (newest_first c.rows)
        (AllRowsFit-AllValues (newest_first c.rows) (o.distinct c.rows f.keyed) all)

  -- warm of a table as __init__ leaves it loads the newest rows of its store, as many as the hot table
  -- holds, if each row fits an entry: it never fails and answers their number.
  pub warm_lem : warm newest_first none t ≡ (ok (length shown), record t { hot = warmed shown })
  unfolding warm recent
  warm_lem =
      let few : length t.hot + length shown ≤ t.max_hot =
        omega (arith, ap length f.empty, length-take t.max_hot (newest_first c.rows)) in
      ap
        (λ (cold : Option ColdStore). elim cold as (λ x. Result ℕ × RouteTable) [
          | none ↦ (ok 0, t)
          | some store ↦ warm_rows (recent newest_first t.max_hot store) 0 t
        ])
        f.store
      ∙ (warm_rows-append shown 0 t fit_shown distinct_shown fresh-AllAbsent few
          ∙ (λ i. (ok (zero_plus (length shown) i), record t { hot = f.empty i ++ warmed shown })))

  IsSorted-shown : IsSorted no_older shown
  IsSorted-shown = IsSorted-take t.max_hot (newest_first c.rows) (o.sorted c.rows)

evict_one : (x : Bytes × Bytes) (d : Dict Bytes Bytes) → evict (length d) (x ∷ d) ≡ d
unfolding evict
evict_one x d =
    let over : ltb (length d) (suc (length d)) ≡ true = lt→ltb _ _ (omega arith) in
    rw over (evict_of_length-le (length d) d (omega arith))

pub get-warmed_absent :
    (id : Bytes) (rows : Dict Bytes Row) → get rows id ≡ none → get (warmed rows) id ≡ none
unfolding get
get-warmed_absent id [] h = refl
get-warmed_absent id ((j, r) ∷ rows) h = ground (arith, get-warmed_absent id rows)

-- a full table, and an entry that is not in it: the oldest entry goes
put_hot_full :
    (x : Bytes × Bytes) (d : Dict Bytes Bytes) (new : Bytes) (heard : Row) (t : RouteTable)
    → RowFits heard
    → t.hot ≡ x ∷ d
    → t.max_hot ≡ suc (length d)
    → get (x ∷ d) new ≡ none
    → (put_hot new heard.next_hop heard.hops heard.rssi heard.last_seen t).1.hot
      ≡ d ++ (new, entry_bytes heard.next_hop heard.hops heard.rssi heard.last_seen) ∷ []
put_hot_full x d new heard t f full room h =
    let v = entry_bytes heard.next_hop heard.hops heard.rssi heard.last_seen in
    let n : t.max_hot ≡ length (d ++ (new, v) ∷ []) =
      omega (arith, room, length-append d ((new, v) ∷ [])) in
    ap (λ (p : Result (Unit {0}) × RouteTable). p.1.hot)
      (put_hot-ok new heard.next_hop heard.hops heard.rssi heard.last_seen t f)
    ∙ ap (λ hot. evict t.max_hot (remove new hot ++ (new, v) ∷ [])) full
    ∙ ap (λ hot. evict t.max_hot (hot ++ (new, v) ∷ [])) (remove_absent new (x ∷ d) h)
    ∙ ap (λ k. evict k (x ∷ (d ++ (new, v) ∷ []))) n
    ∙ evict_one x (d ++ (new, v) ∷ [])

not_there :
    (id new v : Bytes) (r : Row) (rows : Dict Bytes Row)
    → get ((id, r) ∷ rows) new ≡ none
    → get rows id ≡ none
    → get (warmed rows ++ (new, v) ∷ []) id ≡ none
unfolding get
not_there id new v r rows h g =
    let gone = get-warmed_absent id rows g in
    let other : get (warmed rows) new ≡ none = get-warmed_absent new rows (ground arith) in
    ground (arith, eq_iff id new, eq_iff new id, get-append new id v (warmed rows), gone, other)

All-no_older :
    (id : Bytes) (r : Row) (rows : Dict Bytes Row)
    → All (λ y. no_older (id, r) y ≡ true) rows
    → All (λ (e : Bytes × Row). e.1.last_seen ≤ r.last_seen) rows
All-no_older id r [] a = tt
All-no_older id r ((j, s) ∷ rows) a =
    (leb→le s.last_seen r.last_seen a.0, All-no_older id r rows a.1)

-- If the rows fill the hot table, the first new node that is then written evicts the node that was heard
-- last of all, which the warm start had loaded.
pub warm_evicts_newest :
    (newest_first : Dict Bytes Row → Dict Bytes Row) (t : RouteTable) (c : ColdStore) (id : Bytes)
    (r : Row) (rest : Dict Bytes Row) (m : ℕ) (new : Bytes) (heard : Row)
    → IsNewestFirst newest_first
    → IsFresh t c
    → newest_first c.rows ≡ (id, r) ∷ rest
    → t.max_hot ≡ suc m
    → m ≤ length rest
    → get ((id, r) ∷ rest) new ≡ none
    → RowFits heard
    → let t1 = (warm newest_first none t).1 in
      let t2 = (put_hot new heard.next_hop heard.hops heard.rssi heard.last_seen t1).1 in
      (get t1.hot id ≡ some (entry_bytes r.next_hop r.hops r.rssi r.last_seen))
      × (get t2.hot id ≡ none)
      × All (λ (e : Bytes × Row). e.1.last_seen ≤ r.last_seen) rest
warm_evicts_newest newest_first t c id r rest m new heard o f rows limit full absent fits =
    let u : Distinct ((id, r) ∷ rest) = subst Distinct rows (o.distinct c.rows f.keyed) in
    let s : IsSorted no_older ((id, r) ∷ rest) = subst (IsSorted no_older) rows (o.sorted c.rows) in
    let rs = take m rest in
    let n : length rs ≡ m = omega (arith, length-take m rest, full) in
    let seen : shown newest_first o t c f ≡ (id, r) ∷ rs = rw (limit, rows) refl in
    let start : (warm newest_first none t).1 ≡ record t { hot = warmed ((id, r) ∷ rs) } =
      ap (λ (p : Result ℕ × RouteTable). p.1) (warm_lem newest_first o t c f)
      ∙ ap (λ d. record t { hot = warmed d }) seen in
    let hot1 = ap (λ (x : RouteTable). x.hot) start in
    let room : (warm newest_first none t).1.max_hot ≡ suc (length (warmed rs)) =
      ap (λ (x : RouteTable). x.max_hot) start ∙ omega (arith, limit, n, length-warmed rs) in
    let gone : get ((id, r) ∷ rs) new ≡ none =
      get-take_absent (suc m) new ((id, r) ∷ rest) absent in
    let hot2 =
      put_hot_full _ (warmed rs) new heard (warm newest_first none t).1 fits hot1 room
        (get-warmed_absent new ((id, r) ∷ rs) gone) in
    (
      ap (λ d. get d id) hot1 ∙ (unfold get in rw (eq_refl id) refl),
      ap (λ d. get d id) hot2 ∙ not_there id new _ r rs gone (get-take_absent m id rest u.0),
      All-no_older id r rest s.0,
    )
