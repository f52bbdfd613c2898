-- ===== src/Routes/Entry.antt =====
-- The constants of routes.py, `Route`, and the 13 bytes of an entry of the hot table.
pub mod RoundTrip
use wifipi.Prelude.{◌*◌, ℕ, ◌/◌, List, [], ◌∷◌, Option, none, some, Bool, nat_beq}
use wifipi.Prelude.Int.{ℤ, negsuc}
use wifipi.Prelude.Result.{Result}
use wifipi.Prelude.Time.{Micros, seconds}
use wifipi.Bytes.{Bytes, big}
use wifipi.Struct.{Code, raw, uint, int8, Values, pack, unpack}

abbrev pub default_ttl : Micros
default_ttl = seconds (7 * 24 * 3600)

abbrev pub settle_after : Micros
settle_after = seconds 1

abbrev pub flood_guard : Micros
flood_guard = seconds 3

abbrev pub memory_budget : ℕ
memory_budget = 100 * 1024 * 1024

abbrev pub bytes_per_entry : ℕ
bytes_per_entry = 52

abbrev pub max_hot_routes : ℕ
max_hot_routes = memory_budget / bytes_per_entry

abbrev pub flush_seconds : Micros
flush_seconds = seconds 5

abbrev pub flush_entries : ℕ
flush_entries = 10_000

-- "!6sHbI": next_hop, hops, rssi, last_seen
abbrev pub route_fmt : List Code
route_fmt = raw 6 ∷ uint 2 ∷ int8 ∷ uint 4 ∷ []

-- a name, as its code points
abbrev pub Name : Type 0
Name = List ℕ

pub record Route : Type 0 where
  pub node_id : Bytes
  pub next_hop : Bytes
  pub hops : ℕ
  pub rssi : Option ℤ
  pub last_seen : Micros
  pub first_seen : Micros
  pub announces : ℕ
  pub sign_pub : Option Bytes
  pub encrypt_pub : Option Bytes
  pub name : Name

-- "Zero hops means it reached us directly"
abbrev pub is_neighbour : Route → Bool
is_neighbour r = nat_beq r.hops 0

-- the mark of an unknown signal, -128
abbrev pub unknown_rssi : ℤ
unknown_rssi = negsuc 127

-- `-128 if rssi is None else int(rssi)`
abbrev pub stored_rssi : Option ℤ → ℤ
stored_rssi none = unknown_rssi
stored_rssi (some r) = r

-- the whole seconds of `int(last_seen)`
abbrev pub whole_seconds : Micros → ℕ
whole_seconds t = t / 1_000_000

unfoldable pub pack_entry : Bytes → ℕ → Option ℤ → Micros → Result Bytes
pack_entry next_hop hops rssi last_seen =
    pack big route_fmt (next_hop, (hops, (stored_rssi rssi, (whole_seconds last_seen, tt))))

unfoldable pub unpack_entry : Bytes → Values route_fmt
unpack_entry v = unpack big route_fmt v
