-- ===== src/Daemon/Main/Tests.antt =====
-- A daemon whose radio goes away and comes back, and that then hears noise and is asked to announce.
use wifipi.Text.{codes}
use wifipi.Prelude.Result.{ok}
use wifipi.Routes.Entry.{Name}
use wifipi.Identity.{Crypto, Identity}
use wifipi.Prelude.Time.{Micros, seconds}
use wifipi.Bytes.{Bytes}
use wifipi.Prelude.{
  inr, ◌≤◌, ◌≡◌, refl, ℕ, arith, leb, replicate, ◌∷◌, [], some, true, false, list_eq,
}
use wifipi.Prelude.Equality.{list_beq}
use wifipi.Routes.Cold.{ColdStore}
use wifipi.Node.{init}
use wifipi.Node.Robust.{IsValid}
use wifipi.Node.Start.{init-IsValid}
use wifipi.Node.Status.{Running}
use wifipi.Node.Loop.{Draw, Turn}
use wifipi.Node.Loop.Announce.{IsDraw}
use wifipi.Node.Loop.Invariant.{IsTurn}
use wifipi.Node.Outage.{gone, heard}
use wifipi.Node.Outage.Survives.{IsSocket}
use wifipi.Control.Json.{text, object, member, no_member, int_of, get_or_else}
use wifipi.Control.Server.{Connection, Server}
use wifipi.Control.Server.Served.{IsPlainConnection}
use wifipi.Daemon.Main.{Retry, Day, reopen, main}
use wifipi.Daemon.Main.Lives.{IsWait, IsDay, IsWritten, main_lem}

-- no signature verifies
abbrev crypto : Crypto
crypto = record { sha256 = λ k. k; sign = λ k d. []; verifies = λ k s d. false }

abbrev decode : Bytes → Name
decode bs = bs

-- the least draw
abbrev lowest : Micros → Micros → Micros
lowest a b = a

abbrev own : Running
own = record { ifname = codes "wlan1"; started = 0 }

abbrev identity : Identity
identity = record {
  sign_key = [];
  sign_pub = replicate 32 9;
  encrypt_pub = replicate 32 9;
  node_id = replicate 16 9;
}

abbrev store : ColdStore
store = record { rows = []; buf = []; last_flush = 0 }

abbrev server : Server
server = record {
  node = init identity (seconds 21_600) (97 ∷ []) (some store) 3 0;
  answers = [];
  closed = 0;
}

server-IsValid : IsValid server.node
server-IsValid =
    init-IsValid identity (seconds 21_600) (97 ∷ []) (some store) 3 0 refl (omega arith)

abbrev drawn : Micros → Draw
drawn t = record {
  random = replicate 10 5;
  packet_id = 4 ∷ 3 ∷ 2 ∷ 1 ∷ [];
  added_at = t;
  sent_at = t;
}

drawn-IsDraw : (t : Micros) → IsDraw (drawn t)
drawn-IsDraw t = record { id_length = refl; id_bytes = ground arith }

abbrev reading : Micros → Turn
reading t = record {
  receive_at = record { seen_at = t; added_at = t; scheduled_at = t };
  learn_at = record { wall = t; mono = t };
  now = t;
  due_at = t;
  announce = drawn t;
  tick_at = record { wall = t; mono = t };
  expire_at = t;
}

reading-IsTurn : (t : Micros) → t ≤ seconds 2 → IsTurn (reading t)
reading-IsTurn t h = record {
  draw = drawn-IsDraw t;
  learn_fits = ground arith;
  tick_fits = ground arith;
}

abbrev asking : Connection
asking = record {
  incoming = ok (some (object (member (codes "cmd") (text (codes "announce")) no_member)));
  first_taken = true;
  second_taken = true;
  world = record {
    wall = λ n. seconds 2;
    mono = λ n. seconds 2;
    draw = drawn (seconds 2);
    radio = 1;
  };
}

asking-IsPlain : IsPlainConnection asking
unfolding int_of get_or_else list_beq
asking-IsPlain = record { plain = refl; draw = drawn-IsDraw (seconds 2) }

-- back at the third turn of the wait
abbrev retries : ℕ → Retry
retries n = record { stop = false; usable = ok (leb 1 n); opened = leb 2 n }

retries-IsWait : IsWait retries 2
retries-IsWait = record { over = inr (refl, refl); fine = λ j h. (leb 1 j, refl) }

reopened : reopen retries 0 3 ≡ some (ok true)
unfolding reopen
reopened = refl

-- eight bytes that are no radiotap header
abbrev noise : Bytes
noise = 0 ∷ 0 ∷ 255 ∷ 0 ∷ 0 ∷ 0 ∷ 0 ∷ 0 ∷ []

noise-IsSocket : IsSocket (heard (some noise) 5)
noise-IsSocket = ground arith

abbrev lost : Day
lost = record {
  turn = reading (seconds 1);
  socket = gone;
  retries = retries;
  connections = some (asking ∷ []);
}

abbrev busy : Day
busy = record {
  turn = reading (seconds 2);
  socket = heard (some noise) 5;
  retries = retries;
  connections = some (asking ∷ []);
}

lost-IsDay : IsDay 3 lost
lost-IsDay = record {
  turn = reading-IsTurn (seconds 1) (omega arith);
  socket = tt;
  requests = (asking-IsPlain, tt);
  wait = (2, omega arith, retries-IsWait);
}

busy-IsDay : IsDay 3 busy
busy-IsDay = record {
  turn = reading-IsTurn (seconds 2) (omega arith);
  socket = noise-IsSocket;
  requests = (asking-IsPlain, tt);
  wait = (2, omega arith, retries-IsWait);
}

main_lem_example :
    (s' : Server) × (main crypto decode lowest own 3 (lost ∷ busy ∷ []) (seconds 3) server
      ≡ some (ok tt, s'))
    × IsValid s'.node
    × IsWritten s'.node.routes.cold
main_lem_example =
    main_lem crypto decode lowest own 3 (lost ∷ busy ∷ []) (seconds 3) server
      (lost-IsDay, (busy-IsDay, tt)) server-IsValid
