-- ===== src/Frame/Tests.antt =====
-- The theorems on packets at a packet of two payload bytes.
use wifipi.Prelude.{◌≡◌, refl, [], ◌∷◌, ◌++◌, replicate, some, none, arith}
use wifipi.Prelude.Result.{err, short_packet, ok, ◌>>=◌}
use wifipi.Prelude.Equality.{list_beq}
use wifipi.Struct.{pack, pack_one, unpack, unpack_one}
use wifipi.Bytes.{from_uint, Bytes, AreBytes, to_uint}
use wifipi.Frame.{Packet, broadcast, to_bytes, from_bytes, relayed}
use wifipi.Frame.Wire.{IsValid, from_bytes-to_bytes, to_bytes-from_bytes}
use wifipi.Frame.Fields.{HasFields, from_bytes-HasFields}
use wifipi.Frame.Relay.{relay_times, relay_times_lem}

abbrev hello : Packet
hello = record {
  type = 1;
  flags = 0;
  hop_limit = 3;
  packet_id = 1 ∷ 2 ∷ 3 ∷ 4 ∷ [];
  src = replicate 16 7;
  dst = broadcast;
  payload = 104 ∷ 105 ∷ [];
  version = 1;
}

abbrev hello_next : Packet
hello_next = record hello { hop_limit = 2 }

-- `hello` on the air
abbrev hello_bytes : Bytes
hello_bytes =
    66
    ∷ 67
    ∷ 72
    ∷ 68
    ∷ 1
    ∷ 1
    ∷ 0
    ∷ 0
    ∷ 3
    ∷ 1
    ∷ 2
    ∷ 3
    ∷ 4
    ∷ (replicate 16 7 ++ (broadcast ++ 104 ∷ 105 ∷ []))

hello-IsValid : IsValid hello
hello-IsValid = record {
  version_ok = refl;
  type_fits = omega arith;
  flags_fit = omega arith;
  hops_fit = omega arith;
  id_length = refl;
  id_bytes = ground arith;
  src_length = refl;
  dst_length = refl;
}

hello_bytes-AreBytes : AreBytes hello_bytes
hello_bytes-AreBytes = ground arith

hello_sent : to_bytes hello ≡ ok hello_bytes
unfolding to_bytes pack pack_one from_uint to_uint
hello_sent = refl

hello_read : from_bytes hello_bytes ≡ ok hello
unfolding from_bytes list_beq unpack unpack_one from_uint to_uint
hello_read = refl

hello_relayed : relayed hello ≡ ok (some hello_next)
unfolding relayed
hello_relayed = refl

from_bytes-to_bytes_example : (to_bytes hello >>= from_bytes) ≡ ok hello
from_bytes-to_bytes_example = from_bytes-to_bytes hello hello-IsValid

to_bytes-from_bytes_example : to_bytes hello ≡ ok hello_bytes
to_bytes-from_bytes_example = to_bytes-from_bytes hello_bytes hello hello_bytes-AreBytes hello_read

from_bytes-HasFields_example : HasFields hello_bytes hello
from_bytes-HasFields_example =
    from_bytes-HasFields hello_bytes hello hello_bytes-AreBytes hello_read

relay_times_lem_example : relay_times 4 hello ≡ ok none
relay_times_lem_example = relay_times_lem 4 hello hello-IsValid

-- a frame that is too short
short_refused : from_bytes (66 ∷ []) ≡ err (short_packet 1)
unfolding from_bytes
short_refused = refl
