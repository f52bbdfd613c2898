-- ===== src/Node/Tests.antt =====
-- A node that hears a forged announce twice.
use wifipi.Node.Loop.Sends.{poll_sends, announce_bytes}
use wifipi.Flood.Due.{reached, expired}
use wifipi.Frame.Wire.{wire_bytes}
use wifipi.Node.Loop.{handle_got, Turn, poll}
use wifipi.Node.Loop.Invariant.{poll-IsSafe, IsTurn}
use wifipi.Link.Received.{AreReceived}
use wifipi.Node.Outage.{heard, poll_until}
use wifipi.Node.Outage.Sends.{IsSent, poll_until_sends}
use wifipi.Prelude.{
  true, leb, length, ◌<◌, map, Option, ◌≡◌, ◌+◌, refl, [], ◌∷◌, ◌++◌, replicate, some, none, false,
  list_eq, pair_eq, arith,
}
use wifipi.Prelude.Equality.{list_beq}
use wifipi.Prelude.Int.{negsuc}
use wifipi.Prelude.Time.{Micros, seconds}
use wifipi.Prelude.Result.{ok}
use wifipi.Prelude.Dict.{get}
use wifipi.Bytes.{AreBytes, Bytes, to_uint, from_uint}
use wifipi.Struct.{unpack, unpack_one}
use wifipi.Frame.{Packet, broadcast, from_bytes, relayed}
use wifipi.Frame.Wire
use wifipi.Identity.{Crypto}
use wifipi.Flood.{next_deadline, Readings, scheduled, is_own, on_other, schedule, on_receive}
use wifipi.Flood.Seen
use wifipi.Flood.Delay.{IsUniform}
use wifipi.Routes.Entry.{Name}
use wifipi.Routes.Cold.{no_extras}
use wifipi.Routes.Table.{Clocks, is_self}
use wifipi.Routes.Table.Hot
use wifipi.Routes.Table.Learn.{HeardInRange, Installed}
use wifipi.Link.{recv, Meta}
use wifipi.Link.Radiotap.{no_radio}
use wifipi.Node.{Node, heard_from, handle}
use wifipi.Node.Robust
use wifipi.Node.Robust.{IsSafe, handle-IsSafe}
use wifipi.Node.Forged.{IsForged, forged_twice}

-- no signature verifies
abbrev strict : Crypto
strict = record { sha256 = λ k. k; sign = λ k d. []; verifies = λ k s d. false }

abbrev decode : Bytes → Name
decode bs = bs

-- the least draw
abbrev lowest : Micros → Micros → Micros
lowest a b = a

lowest-IsUniform : IsUniform lowest
lowest-IsUniform = record { at_least = λ a b h. omega arith; at_most = λ a b h. h }

abbrev forgery : Packet
forgery = record {
  type = 2;
  flags = 0;
  hop_limit = 3;
  packet_id = 1 ∷ 2 ∷ 3 ∷ 4 ∷ [];
  src = replicate 16 7;
  dst = broadcast;
  payload = 0 ∷ [];
  version = 1;
}

abbrev frame : Bytes
frame =
    66
    ∷ 67
    ∷ 72
    ∷ 68
    ∷ 1
    ∷ 2
    ∷ 0
    ∷ 0
    ∷ 3
    ∷ 1
    ∷ 2
    ∷ 3
    ∷ 4
    ∷ (replicate 16 7 ++ (broadcast ++ 0 ∷ []))

abbrev meta : Meta
meta = record {
  radio = record no_radio { rssi = some (negsuc 70) };
  raw_frame = [];
  radiotap = [];
  src_mac = replicate 6 8;
  dot11_header = [];
  fcs = [];
}

abbrev node : Node
node = record {
  identity = record {
    sign_key = [];
    sign_pub = replicate 32 9;
    encrypt_pub = replicate 32 9;
    node_id = replicate 16 9;
  };
  node_id = replicate 16 9;
  name = 97 ∷ [];
  hop_limit = 3;
  announce_interval = seconds 21_600;
  flooder = record {
    own_id = some (replicate 16 9);
    threshold = 3;
    seen = Seen.empty;
    pending = [];
    stats = record { relayed = 0; cancelled = 0; duplicates = 0; expired_hops = 0 };
  };
  routes = record {
    own_id = some (replicate 16 9);
    ttl = seconds 604_800;
    max_hot = 2;
    cold = none;
    hot = [];
    pending = [];
    stats = record { hot_hits = 0; cold_hits = 0; misses = 0; evictions = 0 };
  };
  next_announce = 0;
  last_expire = 0;
  stats = record { received = 0; announces = 0; rejected = 0; relayed = 0; sent = 0 };
  on_air = [];
}

abbrev at : Micros → Readings
at t = record { seen_at = t; added_at = t; scheduled_at = t }

abbrev clock : Micros → Clocks
clock t = record { wall = t; mono = t }

forgery-IsValid : Wire.IsValid forgery
forgery-IsValid = record {
  version_ok = refl;
  type_fits = omega arith;
  flags_fit = omega arith;
  hops_fit = omega arith;
  id_length = refl;
  id_bytes = ground arith;
  src_length = refl;
  dst_length = refl;
}

forgery-IsForged : IsForged strict forgery
forgery-IsForged a s = cc s.signed

frame_read : from_bytes frame ≡ ok forgery
unfolding from_bytes list_beq unpack unpack_one from_uint to_uint
frame_read = refl

frame_queued : (on_receive lowest (at 0) forgery meta.radio.rssi node.flooder).0 ≡ ok scheduled
unfolding on_receive is_own list_beq get on_other Seen.seen schedule relayed
frame_queued = refl

routes-IsValid : Hot.IsValid node.routes
routes-IsValid = record { bounded = omega arith; distinct = tt; candidates = tt }

routes_other : is_self node.routes forgery.src ≡ false
unfolding is_self list_beq
routes_other = refl

routes_empty : get node.routes.hot forgery.src ≡ none
unfolding get
routes_empty = refl

heard-InRange : HeardInRange (clock (seconds 2)) (heard_from node forgery meta no_extras)
heard-InRange = record {
  mac = refl;
  hops_fit = omega arith;
  rssi_high = omega arith;
  rssi_low = omega arith;
  seen_fits = omega arith;
}

forged_twice_example :
    let n1 = (handle strict decode lowest (at 0) (clock (seconds 1)) frame meta node).1 in
    let n2 = (handle strict decode lowest (at 9) (clock (seconds 2)) frame meta n1).1 in
    (n1.routes ≡ node.routes)
    × (n1.stats.rejected ≡ 0 + 1)
    × Installed (clock (seconds 2)) forgery.src (heard_from node forgery meta no_extras) n2.routes
forged_twice_example =
    forged_twice strict decode lowest (at 0) (at 9) (clock (seconds 1)) (clock (seconds 2)) frame
      meta node forgery frame_read refl forgery-IsValid forgery-IsForged lowest-IsUniform
      (omega arith) frame_queued routes-IsValid (omega arith) routes_other routes_empty
      heard-InRange

frame-AreBytes : AreBytes frame
frame-AreBytes = ground arith

meta-InRange : Robust.InRange (clock (seconds 1)) meta
meta-InRange = record {
  mac = refl;
  rssi_high = omega arith;
  rssi_low = omega arith;
  seen_fits = omega arith;
}

node-IsValid : Robust.IsValid node
unfolding get
node-IsValid = record {
  flooder = record {
    cache = record { bounded = omega arith; distinct = tt };
    distinct = tt;
    foreign = λ k q h. cc;
    keyed = λ k q h. cc;
  };
  routes = routes-IsValid;
  room = omega arith;
  hops_fit = omega arith;
  id_length = refl;
  relays = tt;
  candidates = tt;
}

abbrev reading : Micros → Turn
reading t = record {
  receive_at = at t;
  learn_at = clock t;
  now = t;
  due_at = t;
  announce = record {
    random = replicate 10 5;
    packet_id = 4 ∷ 3 ∷ 2 ∷ 1 ∷ [];
    added_at = t;
    sent_at = t;
  };
  tick_at = clock t;
  expire_at = t;
}

reading-IsTurn : IsTurn (reading (seconds 1))
reading-IsTurn = record {
  draw = record { id_length = refl; id_bytes = ground arith };
  learn_fits = omega arith;
  tick_fits = omega arith;
}

-- eight bytes that are no radiotap header
abbrev noise : Bytes
noise = 0 ∷ 0 ∷ 255 ∷ 0 ∷ 0 ∷ 0 ∷ 0 ∷ 0 ∷ []

noise-AreReceived : AreReceived (some noise)
noise-AreReceived = ground arith

poll-IsSafe_example :
    IsSafe {A = Unit} (poll strict decode lowest (reading (seconds 1)) (some noise) node)
poll-IsSafe_example =
    poll-IsSafe strict decode lowest (reading (seconds 1)) reading-IsTurn (some noise) node
      noise-AreReceived node-IsValid

poll_sends_example :
    (got : Option (Bytes × Meta)) × (recv (some noise) ≡ ok got)
    × (let n1 = (handle_got strict decode lowest (reading (seconds 1)) got node).1 in
        let n' = (poll strict decode lowest (reading (seconds 1)) (some noise) node).1 in
        (n'.on_air
          ≡ []
            ++ (map wire_bytes (expired (seconds 1) n1.flooder.pending)
                ++ announce_bytes strict (reading (seconds 1)) n1))
        × (reached (seconds 1) (next_deadline n'.flooder) ≡ false)
        × (seconds 1 < n'.next_announce))
poll_sends_example =
    poll_sends strict decode lowest (reading (seconds 1)) (some noise) node noise-AreReceived
      reading-IsTurn node-IsValid (omega arith) (omega arith)

poll_until_sends_example :
    (got : Option (Bytes × Meta)) × (recv (some noise) ≡ ok got)
    × (let n1 = (handle_got strict decode lowest (reading (seconds 1)) got node).1 in
        let wanted =
          map wire_bytes (expired (seconds 1) n1.flooder.pending)
          ++ announce_bytes strict (reading (seconds 1)) n1 in
        let out =
          poll_until strict decode lowest (reading (seconds 1)) (heard (some noise) 1) node in
        IsSent 1 wanted node out
        × (leb (length wanted) 1 ≡ true
            → out ≡ poll strict decode lowest (reading (seconds 1)) (some noise) node))
poll_until_sends_example =
    poll_until_sends strict decode lowest (reading (seconds 1)) (some noise) 1 node
      noise-AreReceived reading-IsTurn node-IsValid
