-- ===== src/Control/Server/Tests.antt =====
-- A request for routes, an announce on a radio that is gone, and a list.
use wifipi.Text.{codes, int_of_text, strip, strip_left, digits}
use wifipi.Prelude.Time.{seconds}
use wifipi.Prelude.{◌++◌, refl, replicate, arith, ◌≡◌, ◌∷◌, [], some, none, true, false, list_eq}
use wifipi.Prelude.Int.{pos}
use wifipi.Prelude.Result.{ok, err, attribute_error}
use wifipi.Control.Json.{text, array, no_item, object, member, no_member, int_of, get_or_else, Json}
use wifipi.Control.Server.{World, Connection, Server, poll}
use wifipi.Control.Server.Served.{talk, IsPlainConnection, poll_served}
use wifipi.Control.Server.Stopped.{poll_stopped}
use wifipi.Identity.{Identity, Crypto}
use wifipi.Node.{init}
use wifipi.Node.Robust.{IsValid}
use wifipi.Node.Start.{init-IsValid}
use wifipi.Node.Status.{Running}
use wifipi.Prelude.Equality.{list_beq}

-- no signature verifies
abbrev crypto : Crypto
crypto = record { sha256 = λ k. k; sign = λ k d. []; verifies = λ k s d. false }

abbrev identity : Identity
identity = record {
  sign_key = [];
  sign_pub = replicate 32 9;
  encrypt_pub = replicate 32 9;
  node_id = replicate 16 9;
}

abbrev own : Running
own = record { ifname = codes "wlan1"; started = 0 }

abbrev server : Server
server = record {
  node = init identity (seconds 21_600) (97 ∷ []) none 3 0;
  answers = [];
  closed = 0;
}

server-IsValid : IsValid server.node
server-IsValid = init-IsValid identity (seconds 21_600) (97 ∷ []) none 3 0 refl (omega arith)

abbrev world : World
world = record {
  wall = λ n. seconds 110;
  mono = λ n. seconds 10;
  draw = record {
    random = replicate 10 5;
    packet_id = 1 ∷ 2 ∷ 3 ∷ 4 ∷ [];
    added_at = 1;
    sent_at = 2;
  };
  radio = 0;
}

abbrev asking : Json → Connection
asking req = record {
  incoming = ok (some req);
  first_taken = true;
  second_taken = true;
  world = world;
}

abbrev routes : Json
routes = object (
    member (codes "cmd") (text (codes "routes"))
      (member (codes "limit") (text (codes " 1_0 ")) no_member))

abbrev announce : Json
announce = object (member (codes "cmd") (text (codes "announce")) no_member)

ten : int_of_text (codes " 1_0 ") ≡ ok (pos 10)
unfolding int_of_text strip strip_left digits
ten = refl

routes-IsPlain : IsPlainConnection (asking routes)
unfolding int_of get_or_else list_beq int_of_text strip strip_left digits
routes-IsPlain = record {
  plain = refl;
  draw = record { id_length = refl; id_bytes = ground arith };
}

announce-IsPlain : IsPlainConnection (asking announce)
unfolding int_of get_or_else list_beq
announce-IsPlain = record {
  plain = refl;
  draw = record { id_length = refl; id_bytes = ground arith };
}

poll_served_example :
    (s' : Server) × (poll crypto own (some (asking routes ∷ asking announce ∷ [])) server
      ≡ (ok 2, s'))
    × (s'.closed ≡ 2)
    × IsValid s'.node
    × (s'.answers ≡ [] ++ talk crypto own (asking routes ∷ asking announce ∷ []) server.node)
poll_served_example =
    poll_served crypto own (asking routes ∷ asking announce ∷ []) server
      (routes-IsPlain, (announce-IsPlain, tt)) server-IsValid

poll_stopped_example :
    (s' : Server) × (poll crypto own
        (some (asking routes ∷ asking (array no_item) ∷ asking announce ∷ []))
        server
      ≡ (err attribute_error, s'))
    × (s'.closed ≡ 2)
poll_stopped_example =
    poll_stopped crypto own (asking routes ∷ []) (asking announce ∷ []) (asking (array no_item))
      (array no_item) server (routes-IsPlain, tt) refl tt server-IsValid
