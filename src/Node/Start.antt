-- ===== src/Node/Start.antt =====
-- A node that has just started is valid.
use wifipi.Prelude.{ℕ, ◌<◌, ◌≡◌, Option, list_eq, pair_eq, length, arith}
use wifipi.Prelude.Dict.{get}
use wifipi.Prelude.Time.{Micros}
use wifipi.Bytes.{Bytes}
use wifipi.Identity.{Identity}
use wifipi.Routes.Cold.{ColdStore}
use wifipi.Node.{init}
use wifipi.Node.Robust.{IsValid}

-- `Node.__init__` gives a valid node, if its id has 16 bytes and its hop limit fits 16 bits.
pub init-IsValid :
    (i : Identity) (announce_interval : Micros) (name : Bytes) (cold : Option ColdStore)
    (hop_limit : ℕ) (now : Micros)
    → length i.node_id ≡ 16
    → hop_limit < 65536
    → IsValid (init i announce_interval name cold hop_limit now)
unfolding init get
init-IsValid i announce_interval name cold hop_limit now h k = record {
  flooder = record {
    cache = record { bounded = omega arith; distinct = tt };
    distinct = tt;
    foreign = λ k q h. cc;
    keyed = λ k q h. cc;
  };
  routes = record { bounded = omega arith; distinct = tt; candidates = tt };
  room = omega arith;
  hops_fit = k;
  id_length = h;
  relays = tt;
  candidates = tt;
}
