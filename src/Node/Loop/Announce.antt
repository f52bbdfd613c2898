-- ===== src/Node/Loop/Announce.antt =====
-- What a valid node sends as an announce.
use wifipi.Prelude.Time.{Micros}
use wifipi.Prelude.{
  ◌++◌, ◌+◌, ◌≡◌, refl, none, list_eq, pair_eq, [], ◌∷◌, inl, inr, arith, length, leb, Bool-cases,
}
use wifipi.Prelude.Result.{ok, and_then}
use wifipi.Bytes.{AreBytes}
use wifipi.Frame.{Packet, broadcast, make, type_announce, flag_no_ack, version, key}
use wifipi.Frame.Wire
use wifipi.Frame.Wire.{wire_bytes, to_bytes-IsValid}
use wifipi.Identity.{Crypto, build_announce}
use wifipi.Flood.Seen
use wifipi.Flood.Seen.Laws.{add-IsValid}
use wifipi.Node.{Node}
use wifipi.Node.Robust.{IsValid, IsSafe}
use wifipi.Node.Loop.{Draw, Turn, transmit, send_announce, announce_due}

-- The random bytes of a packet id are 4 bytes.
pub record IsDraw (d : Draw) : Type 0 where
  pub id_length : length d.packet_id ≡ 4
  pub id_bytes : AreBytes d.packet_id

pub transmit_lem :
    (p : Packet) (n : Node)
    → Wire.IsValid p
    → transmit p n ≡ (ok tt, record n { on_air = n.on_air ++ wire_bytes p ∷ [] })
unfolding transmit
transmit_lem p n v = rw (to_bytes-IsValid p v, transmit) refl

-- the packet of an announce
abbrev pub announce_packet : Crypto → Draw → Node → Packet
announce_packet crypto d n = record {
  type = type_announce;
  flags = flag_no_ack;
  hop_limit = n.hop_limit;
  packet_id = d.packet_id;
  src = n.node_id;
  dst = broadcast;
  payload = build_announce crypto d.random n.name n.identity;
  version = version;
}

pub announce_packet-IsValid :
    (crypto : Crypto) (d : Draw) (n : Node)
    → IsValid n
    → IsDraw d
    → Wire.IsValid (announce_packet crypto d n)
announce_packet-IsValid crypto d n v w = record {
  version_ok = refl;
  type_fits = omega arith;
  flags_fit = omega arith;
  hops_fit = v.hops_fit;
  id_length = w.id_length;
  id_bytes = w.id_bytes;
  src_length = v.id_length;
  dst_length = refl;
}

-- A node that sends an announce.
abbrev pub announced : Crypto → Draw → Node → Node
announced crypto d n =
    let p = announce_packet crypto d n in
    record n {
      flooder = record n.flooder { seen = Seen.add d.added_at (key p) n.flooder.seen };
      on_air = n.on_air ++ wire_bytes p ∷ [];
      stats = record n.stats { sent = n.stats.sent + 1; announces = n.stats.announces + 1 };
      next_announce = d.sent_at + n.announce_interval;
    }

pub made :
    (crypto : Crypto) (d : Draw) (n : Node)
    → IsValid n
    → IsDraw d
    → make n.node_id broadcast type_announce
        (build_announce crypto d.random n.name n.identity)
        flag_no_ack
        n.hop_limit
        none
        version
        d.packet_id
      ≡ ok (announce_packet crypto d n)
unfolding make
made crypto d n v w = ground arith

pub send_announce_lem :
    (crypto : Crypto) (d : Draw) (n : Node)
    → IsValid n
    → IsDraw d
    → send_announce crypto d n ≡ (ok (announce_packet crypto d n), announced crypto d n)
unfolding send_announce make
send_announce_lem crypto d n v w =
    let p = announce_packet crypto d n in
    let n1 = record n {
      flooder = record n.flooder { seen = Seen.add d.added_at (key p) n.flooder.seen };
    } in
    let sent = transmit_lem p n1 (announce_packet-IsValid crypto d n v w) in
    rw (send_announce, made crypto d n v w, and_then, sent) refl

-- A packet in the seen cache changes nothing that a valid node needs.
pub added-IsValid :
    (now : Micros) (p : Packet) (n : Node)
    → IsValid n
    → IsValid
        (record n { flooder = record n.flooder { seen = Seen.add now (key p) n.flooder.seen } })
added-IsValid now p n v = record {
  flooder = record {
    cache = add-IsValid now (key p) n.flooder.seen v.flooder.cache;
    distinct = v.flooder.distinct;
    foreign = v.flooder.foreign;
    keyed = v.flooder.keyed;
  };
  routes = v.routes;
  room = v.room;
  hops_fit = v.hops_fit;
  id_length = v.id_length;
  relays = v.relays;
  candidates = v.candidates;
}

pub send_announce-IsSafe :
    (crypto : Crypto) (d : Draw) (n : Node)
    → IsValid n
    → IsDraw d
    → IsSafe (send_announce crypto d n)
send_announce-IsSafe crypto d n v w =
    let p = announce_packet crypto d n in
    let seen = added-IsValid d.added_at p n v in
    rw (send_announce_lem crypto d n v w) (
      p,
      refl,
      record {
        flooder = seen.flooder;
        routes = v.routes;
        room = v.room;
        hops_fit = v.hops_fit;
        id_length = v.id_length;
        relays = v.relays;
        candidates = v.candidates;
      },
    )

pub announce_due-IsSafe :
    (crypto : Crypto) (turn : Turn) (n : Node)
    → IsValid n
    → IsDraw turn.announce
    → IsSafe (announce_due crypto turn n)
unfolding announce_due
announce_due-IsSafe crypto turn n v w = elim (Bool-cases (leb n.next_announce turn.now)) [
  | inl ready ↦
      let (p, fine, valid) = send_announce-IsSafe crypto turn.announce n v w in
      rw (announce_due, ready, fine, and_then) (tt, refl, valid)
  | inr early ↦ rw (announce_due, early) (tt, refl, v)
]
