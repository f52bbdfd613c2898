-- ===== src/Node/Life/Tests.antt =====
-- A node that starts with one route on disk, and announces once on a radio that is gone.
use wifipi.Prelude.Result.{ok}
use wifipi.Routes.Entry.{Name}
use wifipi.Identity.{Crypto, Identity}
use wifipi.Prelude.Time.{Micros, seconds}
use wifipi.Bytes.{Bytes}
use wifipi.Prelude.{◌≡◌, refl, ℕ, arith, replicate, ◌∷◌, [], some, none, false, list_eq}
use wifipi.Prelude.Int.{negsuc}
use wifipi.Prelude.Dict.{get, AllValues-get}
use wifipi.Routes.Cold.{ColdStore, Row}
use wifipi.Routes.Table.Warm.Fill.{RowFits}
use wifipi.Routes.Table.Warm.Stable.{newest, newest-IsNewestFirst}
use wifipi.Flood.{Readings}
use wifipi.Node.{Node}
use wifipi.Node.Robust.{IsValid}
use wifipi.Node.Loop.{Turn}
use wifipi.Node.Loop.Invariant.{IsTurn}
use wifipi.Node.Life.{boot, announce, here, next}
use wifipi.Node.Life.Reached.{IsStored, boot-Reach}
use wifipi.Node.Outage.{heard, poll_until, send_announce_until}
use wifipi.Node.Outage.Survives.{IsSocket, Survives}

-- no signature verifies
abbrev crypto : Crypto
crypto = record { sha256 = λ k. k; sign = λ k d. []; verifies = λ k s d. false }

abbrev decode : Bytes → Name
decode bs = bs

-- the least draw
abbrev lowest : Micros → Micros → Micros
lowest a b = a

abbrev identity : Identity
identity = record {
  sign_key = [];
  sign_pub = replicate 32 9;
  encrypt_pub = replicate 32 9;
  node_id = replicate 16 9;
}

abbrev row : Row
row = record {
  next_hop = replicate 6 2;
  hops = 1;
  rssi = some (negsuc 59);
  first_seen = seconds 5;
  last_seen = seconds 5;
  announces = 1;
  sign_pub = none;
  encrypt_pub = none;
  name = [];
}

abbrev store : ColdStore
store = record { rows = (replicate 16 1, row) ∷ []; buf = []; last_flush = 0 }

row-RowFits : RowFits row
row-RowFits = record {
  mac = refl;
  hops_fit = omega arith;
  rssi_high = omega arith;
  rssi_low = omega arith;
  seen_fits = omega arith;
}

store-IsStored : IsStored (some store)
unfolding get
store-IsStored = ((refl, tt), λ id r h. AllValues-get RowFits id r store.rows h (row-RowFits, tt))

abbrev at : Micros → Readings
at t = record { seen_at = t; added_at = t; scheduled_at = t }

abbrev reading : Micros → Turn
reading t = record {
  receive_at = at t;
  learn_at = record { wall = t; mono = t };
  now = t;
  due_at = t;
  announce = record {
    random = replicate 10 5;
    packet_id = 4 ∷ 3 ∷ 2 ∷ 1 ∷ [];
    added_at = t;
    sent_at = t;
  };
  tick_at = record { wall = t; mono = t };
  expire_at = t;
}

reading-IsTurn : IsTurn (reading (seconds 1))
reading-IsTurn = record {
  draw = record { id_length = refl; id_bytes = ground arith };
  learn_fits = omega arith;
  tick_fits = omega arith;
}

-- the node that has started, and the node after the announce
abbrev started : Node
started = (boot newest identity (seconds 21_600) [] (some store) 3 0).1

abbrev announced : Node
announced = (send_announce_until crypto 0 (reading (seconds 1)).announce started).1

-- eight bytes that are no radiotap header
abbrev noise : Bytes
noise = 0 ∷ 0 ∷ 255 ∷ 0 ∷ 0 ∷ 0 ∷ 0 ∷ 0 ∷ []

noise-IsSocket : IsSocket (heard (some noise) 0)
noise-IsSocket = ground arith

boot-Reach_example :
    ((k : ℕ) × ((boot newest identity (seconds 21_600) [] (some store) 3 0).0 ≡ ok k))
    × IsValid announced
    × Survives {A = Unit}
        (poll_until crypto decode lowest (reading (seconds 1)) (heard (some noise) 0) announced)
boot-Reach_example =
    boot-Reach newest newest-IsNewestFirst identity (seconds 21_600) [] 3 0 refl (omega arith)
      crypto decode lowest (some store) announced (reading (seconds 1)) (heard (some noise) 0)
      store-IsStored
      (next here (announce 0 (reading (seconds 1)).announce started reading-IsTurn.draw))
      reading-IsTurn noise-IsSocket
