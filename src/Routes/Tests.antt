-- ===== src/Routes/Tests.antt =====
-- The theorems on routes at one node, heard over a relay and then over a longer way.
use wifipi.Prelude.{
  length, Option, ◌≡◌, ◌≤◌, ◌+◌, refl, [], ◌∷◌, replicate, some, none, false, list_eq, arith,
}
use wifipi.Prelude.Equality.{list_beq}
use wifipi.Prelude.Int.{ℤ, negsuc}
use wifipi.Prelude.Time.{Micros, seconds, millis}
use wifipi.Prelude.Result.{ok}
use wifipi.Prelude.Dict.{get}
use wifipi.Bytes.{Bytes}
use wifipi.Routes.Entry.{unpack_entry}
use wifipi.Routes.Entry.RoundTrip.{InRange, entry_bytes, unpack_entry-entry_bytes}
use wifipi.Routes.Cold.{ColdStore, Row, Buffered, no_extras}
use wifipi.Routes.Cold.Laws
use wifipi.Routes.Cold.Laws.{flushed, flush_lem}
use wifipi.Routes.Table.{
  RouteTable, Candidate, Clocks, Heard, settling, is_self, learn, held_hops, settle,
}
use wifipi.Routes.Table.Hot.{IsValid}
use wifipi.Routes.Table.Learn.{HeardInRange, Learned, learn_effect}
use wifipi.Routes.Table.Hops.{learn-hops_le}
use wifipi.Routes.Table.Guard.{guard_lem}
use wifipi.Routes.Table.Settle.{settled_entry, heard_of, unsettled, settle_lem}

abbrev node : Bytes
node = replicate 16 1

abbrev near : Bytes
near = replicate 6 2

abbrev far : Bytes
far = replicate 6 3

abbrev signal : Option ℤ
signal = some (negsuc 59)

-- The held route, over one relay, was written half a second into second 100.
abbrev wrote : Micros
wrote = seconds 100 + millis 500

abbrev entry : Bytes
entry = entry_bytes near 1 signal wrote

abbrev table : RouteTable
table = record {
  own_id = some (replicate 16 9);
  ttl = seconds 604_800;
  max_hot = 2;
  cold = none;
  hot = (node, entry) ∷ [];
  pending = [];
  stats = record { hot_hits = 0; cold_hits = 0; misses = 0; evictions = 0 };
}

abbrev longer : Heard
longer = record { next_hop = far; hops = 2; rssi = signal; extras = no_extras }

abbrev direct : Heard
direct = record { next_hop = far; hops = 0; rssi = signal; extras = no_extras }

abbrev clock : Micros → Clocks
clock t = record { wall = t; mono = t }

-- `longer` as a candidate that settles at second 111
abbrev candidate : Candidate
candidate = record { commit_at = seconds 111; next_hop = far; hops = 2; rssi = negsuc 59 }

abbrev settling_table : RouteTable
settling_table = record table { pending = (node, candidate) ∷ [] }

held-InRange : InRange near 1 signal wrote
held-InRange = record {
  mac = refl;
  hops_fit = omega arith;
  rssi_high = omega arith;
  rssi_low = omega arith;
  seen_fits = omega arith;
}

longer-InRange : HeardInRange (clock (seconds 110)) longer
longer-InRange = record {
  mac = refl;
  hops_fit = omega arith;
  rssi_high = omega arith;
  rssi_low = omega arith;
  seen_fits = omega arith;
}

direct-InRange : HeardInRange (clock (seconds 110)) direct
direct-InRange = record {
  mac = refl;
  hops_fit = omega arith;
  rssi_high = omega arith;
  rssi_low = omega arith;
  seen_fits = omega arith;
}

candidate-InRange : HeardInRange (clock (seconds 112)) (heard_of candidate)
candidate-InRange = record {
  mac = refl;
  hops_fit = omega arith;
  rssi_high = omega arith;
  rssi_low = omega arith;
  seen_fits = omega arith;
}

table-IsValid : IsValid table
unfolding get
table-IsValid = record { bounded = omega arith; distinct = (refl, tt); candidates = tt }

settling_table-IsValid : IsValid settling_table
unfolding get
settling_table-IsValid = record {
  bounded = omega arith;
  distinct = (refl, tt);
  candidates = (refl, tt);
}

table_other : is_self table node ≡ false
unfolding is_self list_beq
table_other = refl

table_holds : get table.hot node ≡ some entry
unfolding get list_beq
table_holds = refl

entry_read : unpack_entry entry ≡ (near, (1, (negsuc 59, (100, tt))))
entry_read = unpack_entry-entry_bytes near 1 signal wrote held-InRange

learn_effect_example :
    Learned (clock (seconds 110)) node direct table (learn (clock (seconds 110)) node direct table)
learn_effect_example =
    learn_effect (clock (seconds 110)) node direct table direct-InRange table-IsValid (omega arith)

learn-hops_le_example :
    (e : Bytes) × (get (learn (clock (seconds 110)) node longer table).1.hot node ≡ some e)
    × (held_hops (unpack_entry e) ≤ held_hops (unpack_entry entry))
learn-hops_le_example =
    learn-hops_le (clock (seconds 110)) node longer table entry longer-InRange table-IsValid
      (omega arith) table_holds

-- within the 3 s, and not held off
guard_short : (learn (clock (seconds 103 + 1)) node longer table).0 ≡ ok settling
guard_short =
    (guard_lem (clock (seconds 103 + 1)) node longer table near 1 signal wrote held-InRange
        table_other table_holds (omega arith)).1
      (omega arith)

settle_lem_example :
    ((settle (clock (seconds 112)) settling_table).0 ≡ ok tt)
    × IsValid (settle (clock (seconds 112)) settling_table).1
    × ((settle (clock (seconds 112)) settling_table).1.pending
        ≡ unsettled (seconds 112) settling_table.pending)
    × (length settling_table.hot + length settling_table.pending ≤ settling_table.max_hot
        → (id : Bytes)
        → get (settle (clock (seconds 112)) settling_table).1.hot id
          ≡ settled_entry
              (clock (seconds 112))
              (get settling_table.pending id)
              (get settling_table.hot id))
settle_lem_example =
    settle_lem (clock (seconds 112)) settling_table settling_table-IsValid (candidate-InRange, tt)
      (omega arith)

-- a row with a key
abbrev row : Row
row = record {
  next_hop = near;
  hops = 1;
  rssi = signal;
  first_seen = seconds 50;
  last_seen = wrote;
  announces = 1;
  sign_pub = some (7 ∷ []);
  encrypt_pub = some (8 ∷ []);
  name = [];
}

abbrev store : ColdStore
store = record { rows = (node, row) ∷ []; buf = []; last_flush = 0 }

abbrev heard_again : Buffered
heard_again = record {
  next_hop = near;
  hops = 1;
  rssi = signal;
  last_seen = seconds 110;
  extras = no_extras;
}

abbrev buffered_store : ColdStore
buffered_store = record store { buf = (node, heard_again) ∷ [] }

buffered_store-IsValid : Laws.IsValid buffered_store
unfolding get
buffered_store-IsValid = record { one_each = (refl, tt); primary_key = (refl, tt) }
