-- ===== src/Routes/Cold/Replay.antt =====
-- What a run of the cold store comes to for one node, told without a buffer.
use wifipi.Prelude.{ℕ, Option, none, some, List, [], ◌∷◌, ◌==◌, list_eq, if◌then◌else◌}
use wifipi.Prelude.Int.{ℤ}
use wifipi.Prelude.Dict.{get}
use wifipi.Prelude.Time.{Micros}
use wifipi.Bytes.{Bytes}
use wifipi.Routes.Entry.{Name, Route}
use wifipi.Routes.Cold.{ColdStore, Extras, or_name, coalesce, flush, buffer, maybe_flush}
use wifipi.Routes.Cold.Laws.{flushed}

-- an announce, as `buffer` gets it
pub record Told : Type 0 where
  pub node_id : Bytes
  pub next_hop : Bytes
  pub hops : ℕ
  pub rssi : Option ℤ
  pub last_seen : Micros
  pub extras : Extras

pub data Op : Type 0 where
  tell : Micros → Told → Op
  flush_now flush_if_due : Micros → Op

unfoldable pub apply : Op → ColdStore → ColdStore
apply (tell now m) c = buffer now m.node_id m.next_hop m.hops m.rssi m.last_seen m.extras c
apply (flush_now now) c = (flush now c).1
apply (flush_if_due now) c = (maybe_flush now c).1

unfoldable pub run : List Op → ColdStore → ColdStore
run [] c = c
run (o ∷ os) c = run os (apply o c)

-- a route, but for the count of announces and the first hearing
pub record Fact : Type 0 where
  pub next_hop : Bytes
  pub hops : ℕ
  pub rssi : Option ℤ
  pub last_seen : Micros
  pub sign_pub : Option Bytes
  pub encrypt_pub : Option Bytes
  pub name : Name

abbrev pub fact_of : Option Route → Option Fact
fact_of none = none
fact_of (some r) = some (record {
  next_hop = r.next_hop;
  hops = r.hops;
  rssi = r.rssi;
  last_seen = r.last_seen;
  sign_pub = r.sign_pub;
  encrypt_pub = r.encrypt_pub;
  name = r.name;
})

-- what a flush would leave for a node
abbrev pub view : ColdStore → Bytes → Option Fact
view c id = fact_of (flushed id (get c.rows id) (get c.buf id))

-- The specification: the newest route, and for each key and the name the newest that was told.
abbrev pub learned : Told → Option Fact → Fact
learned m none = record {
  next_hop = m.next_hop;
  hops = m.hops;
  rssi = m.rssi;
  last_seen = m.last_seen;
  sign_pub = m.extras.sign_pub;
  encrypt_pub = m.extras.encrypt_pub;
  name = m.extras.name;
}
learned m (some f) = record {
  next_hop = m.next_hop;
  hops = m.hops;
  rssi = m.rssi;
  last_seen = m.last_seen;
  sign_pub = coalesce m.extras.sign_pub f.sign_pub;
  encrypt_pub = coalesce m.extras.encrypt_pub f.encrypt_pub;
  name = or_name m.extras.name f.name;
}

unfoldable pub replay : Bytes → List Op → Option Fact → Option Fact
replay id [] f = f
replay id (tell now m ∷ os) f = replay id os (if m.node_id == id then some (learned m f) else f)
replay id (flush_now now ∷ os) f = replay id os f
replay id (flush_if_due now ∷ os) f = replay id os f

-- A key that is told is not the empty byte string.
abbrev pub IsKey : Option Bytes → Type 0
IsKey none = Unit
IsKey (some []) = ⊥
IsKey (some (x ∷ xs)) = Unit

abbrev pub AreKeyed : List Op → Type 0
AreKeyed [] = Unit
AreKeyed (tell now m ∷ os) = IsKey m.extras.sign_pub × IsKey m.extras.encrypt_pub × AreKeyed os
AreKeyed (flush_now now ∷ os) = AreKeyed os
AreKeyed (flush_if_due now ∷ os) = AreKeyed os
