-- ===== src/Routes/Cold/Tests.antt =====
-- A run of the cold store: two announces of a node, a flush, and a third announce.
use wifipi.Prelude.Time.{seconds}
use wifipi.Bytes.{Bytes}
use wifipi.Prelude.{some, ◌∷◌, none, ◌≡◌, [], replicate, List, list_eq}
use wifipi.Routes.Cold.Refinement.{run_refines}
use wifipi.Routes.Cold.Replay.{Told, Op, tell, flush_now, run, replay, fact_of}
use wifipi.Routes.Cold.Laws.{IsValid}
use wifipi.Routes.Cold.{lookup, flush, ColdStore, no_extras}

abbrev node : Bytes
node = replicate 16 1

-- an announce that carries a signing key, and one that carries none
abbrev keyed : Told
keyed = record {
  node_id = node;
  next_hop = replicate 6 2;
  hops = 2;
  rssi = none;
  last_seen = seconds 100;
  extras = record { sign_pub = some (7 ∷ []); encrypt_pub = none; name = 65 ∷ [] };
}

abbrev bare : Told
bare = record keyed { hops = 1; last_seen = seconds 101; extras = no_extras }

abbrev ops : List Op
ops = tell 0 keyed ∷ tell 1 bare ∷ flush_now 2 ∷ tell 3 bare ∷ []

abbrev blank : ColdStore
blank = record { rows = []; buf = []; last_flush = 0 }

blank-IsValid : IsValid blank
blank-IsValid = record { one_each = tt; primary_key = tt }

run_refines_example :
    let c' = (flush 9 (run ops blank)).1 in
    (fact_of (lookup c' node) ≡ replay node ops (fact_of (lookup (flush 0 blank).1 node)))
    × (c'.buf ≡ [])
    × IsValid c'
run_refines_example = run_refines ops 0 9 blank node (tt, tt, (tt, tt, (tt, tt, tt))) blank-IsValid
