-- ===== src/Routes/Table/Listing/Order.antt =====
-- The order in which routes are listed.
use wifipi.Prelude.Int.{pos, leb_ℤ, negsuc, ℤ}
use wifipi.Prelude.{
  ◌≤◌, refl, nat_beq, All, List, Option, none, some, [], ◌∷◌, list_eq, not, arith, false, true,
  ◌&&◌, ◌++◌, Bool, ◌≡◌,
}
use mathlib.Core.List.{Perm}
use wifipi.Prelude.Sort.{filter, IsSorted, sort-perm, sort-IsSorted, filter-sort, sorted_split}
use wifipi.Routes.Entry.{Route, is_neighbour}
use wifipi.Routes.Table.{RouteTable}
use wifipi.Routes.Table.Listing.{loudness, listed_before, entries, listing, neighbours}

listed_before-total : (r s : Route) → listed_before r s ≡ false → listed_before s r ≡ true
unfolding listed_before
listed_before-total r s h = ground arith

listed_before_trans :
    (r s u : Route) → listed_before r s ≡ true → listed_before s u ≡ true → listed_before r u ≡ true
unfolding listed_before
listed_before_trans r s u h k = ground arith

-- two routes with the same key
abbrev pub tied : Route → Route → Bool
tied r s = listed_before r s && listed_before s r

tied-before : (r s u : Route) → tied r s ≡ true → tied r u ≡ true → listed_before s u ≡ true
tied-before r s u h k = listed_before_trans s r u (ground arith) (ground arith)

-- A signal that is known and not 0 dBm.
abbrev pub is_reading : Option ℤ → Bool
is_reading none = false
is_reading (some (pos n)) = not (nat_beq n 0)
is_reading (some (negsuc n)) = true

-- A route that may stand before another: it has no more hops, and of as many a signal no weaker, if both
-- are readings; a route without a reading stands before one of at most -127 dBm only.
pub record StandsBefore (r s : Route) : Type 0 where
  pub nearer : r.hops ≤ s.hops
  pub stronger :
      (a b : ℤ)
      → r.hops ≡ s.hops
      → r.rssi ≡ some a
      → s.rssi ≡ some b
      → is_reading r.rssi ≡ true
      → is_reading s.rssi ≡ true
      → leb_ℤ b a ≡ true
  pub known :
      (b : ℤ)
      → r.hops ≡ s.hops
      → is_reading r.rssi ≡ false
      → s.rssi ≡ some b
      → is_reading s.rssi ≡ true
      → leb_ℤ b (negsuc 126) ≡ true

abbrev pub IsOrdered : List Route → Type 0
IsOrdered [] = Unit
IsOrdered (r ∷ rs) = All (StandsBefore r) rs × IsOrdered rs

loudness-reading : (x : Option ℤ) (a : ℤ) → x ≡ some a → is_reading x ≡ true → loudness x ≡ a
loudness-reading none a h k = cc
loudness-reading (some (pos n)) a h k = ground arith
loudness-reading (some (negsuc n)) a h k = ground arith

loudness-none : (x : Option ℤ) → is_reading x ≡ false → loudness x ≡ negsuc 126
loudness-none none k = refl
loudness-none (some (pos n)) k = ground arith
loudness-none (some (negsuc n)) k = cc

listed_before-StandsBefore : (r s : Route) → listed_before r s ≡ true → StandsBefore r s
unfolding listed_before
listed_before-StandsBefore r s h =
    let louder : r.hops ≡ s.hops → leb_ℤ (loudness s.rssi) (loudness r.rssi) ≡ true =
      λ same. ground (arith, same) in
    record {
      nearer = ground arith;
      stronger = λ a b same p q k l.
          rw (loudness-reading r.rssi a p k, loudness-reading s.rssi b q l) at (louder same);
      known = λ b same k q l.
          rw (loudness-none r.rssi k, loudness-reading s.rssi b q l) at (louder same);
    }

IsSorted-IsOrdered : (rs : List Route) → IsSorted listed_before rs → IsOrdered rs
IsSorted-IsOrdered [] h = tt
IsSorted-IsOrdered (r ∷ rs) h = (all r rs h.0, IsSorted-IsOrdered rs h.1)
  where
    all :
        (r : Route) (ss : List Route)
        → All (λ s. listed_before r s ≡ true) ss
        → All (StandsBefore r) ss
    all r [] a = tt
    all r (s ∷ ss) a = (listed_before-StandsBefore r s a.0, all r ss a.1)

listing-IsSorted : (t : RouteTable) → IsSorted listed_before (listing t)
unfolding listing
listing-IsSorted t = sort-IsSorted listed_before listed_before-total listed_before_trans (entries t)

-- The listing of a table holds its routes once each, nearest first. Of as many hops a stronger signal is
-- first, a signal that is unknown or 0 dBm counts as -127 dBm, and routes with the same key stand in the
-- order of the table.
pub listing_lem :
    (t : RouteTable)
    → IsOrdered (listing t)
      × Perm (listing t) (entries t)
      × ((r : Route) → filter (tied r) (listing t) ≡ filter (tied r) (entries t))
unfolding listing
listing_lem t = (
  IsSorted-IsOrdered (listing t) (listing-IsSorted t),
  sort-perm listed_before (entries t),
  λ r. filter-sort listed_before (tied r) (tied-before r) (entries t),
)

farther : (r s : Route) → listed_before r s ≡ true → is_neighbour r ≡ false → is_neighbour s ≡ false
unfolding listed_before
farther r s h k = ground arith

-- The listing of a table is its neighbours followed by its other routes, both in the order of the
-- listing.
pub listing-neighbours :
    (t : RouteTable) → listing t ≡ neighbours t ++ filter (λ r. not (is_neighbour r)) (listing t)
unfolding neighbours
listing-neighbours t =
    sorted_split listed_before is_neighbour farther (listing t) (listing-IsSorted t)
