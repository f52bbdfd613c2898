-- ===== src/Routes/Table/Listing.antt =====
-- `RouteTable.__iter__` and `neighbours`.
pub mod Order
mod Tests
use wifipi.Routes.Table.Lookup.{route_of_entry}
use wifipi.Bytes.{Bytes}
use wifipi.Prelude.Int.{pos, leb_ℤ, negsuc, ℤ}
use wifipi.Prelude.{
  none, some, false, nat_beq, true, ltb, map, if◌then◌else◌, List, Bool, Option, list_eq,
}
use wifipi.Prelude.Sort.{filter, sort}
use wifipi.Routes.Entry.{Route, is_neighbour}
use wifipi.Routes.Table.{RouteTable}

-- `r.rssi or -127`
abbrev pub loudness : Option ℤ → ℤ
loudness none = negsuc 126
loudness (some (pos n)) = if nat_beq n 0 then negsuc 126 else pos n
loudness (some (negsuc n)) = negsuc n

-- whether the key `(r.hops, -(r.rssi or -127))` of one route is at or below that of another
unfoldable pub listed_before : Route → Route → Bool
listed_before r s =
    if ltb r.hops s.hops
    then true
    else if nat_beq r.hops s.hops
    then leb_ℤ (loudness s.rssi) (loudness r.rssi)
    else false

abbrev pub entries : RouteTable → List Route
entries t = map (λ (e : Bytes × Bytes). route_of_entry e.0 e.1) t.hot

-- `__iter__`
unfoldable pub listing : RouteTable → List Route
listing t = sort listed_before (entries t)

unfoldable pub neighbours : RouteTable → List Route
neighbours t = filter is_neighbour (listing t)
