-- ===== src/Link/Tests.antt =====
-- A node with the MAC 02:00:00:00:00:01 sends one byte.
use wifipi.Prelude.{◌≡◌, refl, [], ◌∷◌, ◌++◌, Option, some, arith}
use wifipi.Prelude.Result.{ok}
use wifipi.Prelude.Int.{negsuc}
use wifipi.Bytes.{Bytes, AreBytes, from_uint}
use wifipi.Struct.{unpack, unpack_one}
use wifipi.Link.Radiotap.{Radio, no_radio, parse_radiotap, skip_words, read_fields, set_field}
use wifipi.Link.{Meta, recv}
use wifipi.Link.Received.{IsDelivered, recv-IsDelivered}
use wifipi.Link.Sent.{header, recv-header}

abbrev mac : Bytes
mac = 2 ∷ 0 ∷ 0 ∷ 0 ∷ 0 ∷ 1 ∷ []

abbrev packet : Bytes
packet = 77 ∷ []

-- a checksum
abbrev crc : Bytes
crc = 1 ∷ 2 ∷ 3 ∷ 4 ∷ []

-- flags with a checksum at the end, and a signal of -60 dBm
abbrev radio : Radio
radio = record no_radio { flags = some 16; rssi = some (negsuc 59) }

-- what a driver hands up
abbrev heard : Bytes
heard = 0 ∷ 0 ∷ 10 ∷ 0 ∷ 34 ∷ 0 ∷ 0 ∷ 0 ∷ 16 ∷ 196 ∷ (header mac ++ (packet ++ crc))

heard_parsed : parse_radiotap heard ≡ ok (radio, header mac ++ (packet ++ crc))
unfolding parse_radiotap skip_words read_fields set_field unpack unpack_one from_uint
heard_parsed = refl

heard-AreBytes : AreBytes heard
heard-AreBytes = ground arith

recv-IsDelivered_example : (m : Option (Bytes × Meta)) × (recv (some heard) ≡ ok m) × IsDelivered m
recv-IsDelivered_example = recv-IsDelivered (some heard) heard-AreBytes

recv-header_example :
    (meta : Meta) × (recv (some heard) ≡ ok (some (packet, meta)))
    × (meta.src_mac ≡ mac)
    × (meta.radio ≡ radio)
    × (meta.fcs ≡ crc)
recv-header_example = recv-header heard mac packet crc radio refl (omega arith) refl heard_parsed
