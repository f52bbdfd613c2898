-- ===== src/Routes/Entry/RoundTrip.antt =====
-- What is packed into an entry of the hot table is read from it, whole seconds and all.
use wifipi.Prelude.Result.{ok}
use wifipi.Struct.{unpack, Values}
use wifipi.Struct.RoundTrip.{unpack-encode, pack-encode, length-encode, encode, FitsAll}
use wifipi.Prelude.Time.{Micros}
use wifipi.Prelude.Int.{neg_part, pos_part, ℤ}
use wifipi.Bytes.{big, Bytes}
use wifipi.Prelude.{[], ◌∙◌, ◌^◌, sym, ap, ◌<◌, ◌≡◌, length, Option, ℕ}
use mathlib.Core.List.{append-nil}
use wifipi.Routes.Entry.{pack_entry, unpack_entry, route_fmt, stored_rssi, whole_seconds}

-- The ranges of `ROUTE_FMT`: what every announce that the radio hands up meets.
pub record InRange (next_hop : Bytes) (hops : ℕ) (rssi : Option ℤ) (last_seen : Micros)
    : Type 0 where
  pub mac : length next_hop ≡ 6
  pub hops_fit : hops < 65536
  pub rssi_high : pos_part (stored_rssi rssi) < 128
  pub rssi_low : neg_part (stored_rssi rssi) < 129
  pub seen_fits : whole_seconds last_seen < 2 ^ 32

-- the bytes of an entry in range
pub entry_bytes : Bytes → ℕ → Option ℤ → Micros → Bytes
entry_bytes next_hop hops rssi last_seen =
    encode big route_fmt (next_hop, (hops, (stored_rssi rssi, (whole_seconds last_seen, tt))))

module _ (next_hop : Bytes) (hops : ℕ) (rssi : Option ℤ) (last_seen : Micros) where
  fits :
      InRange next_hop hops rssi last_seen
      → FitsAll route_fmt (next_hop, (hops, (stored_rssi rssi, (whole_seconds last_seen, tt))))
  fits r = (r.mac, (r.hops_fit, ((r.rssi_high, r.rssi_low), (r.seen_fits, tt))))

  pub pack_entry-InRange :
      InRange next_hop hops rssi last_seen
      → pack_entry next_hop hops rssi last_seen ≡ ok (entry_bytes next_hop hops rssi last_seen)
  unfolding pack_entry entry_bytes
  pack_entry-InRange r = pack-encode big route_fmt _ (fits r)

  -- The bytes of an entry in range are read back as what was packed, with the second, not the
  -- microsecond, in which the node was heard.
  pub unpack_entry-entry_bytes :
      InRange next_hop hops rssi last_seen
      → unpack_entry (entry_bytes next_hop hops rssi last_seen)
        ≡ (next_hop, (hops, (stored_rssi rssi, (whole_seconds last_seen, tt))))
  unfolding unpack_entry entry_bytes
  unpack_entry-entry_bytes r =
      let vs : Values route_fmt =
        (next_hop, (hops, (stored_rssi rssi, (whole_seconds last_seen, tt)))) in
      ap (unpack big route_fmt) (sym (append-nil (encode big route_fmt vs)))
      ∙ unpack-encode big route_fmt vs [] (fits r)

  pub length-entry_bytes :
      InRange next_hop hops rssi last_seen → length (entry_bytes next_hop hops rssi last_seen) ≡ 13
  unfolding entry_bytes
  length-entry_bytes r = length-encode big route_fmt _ (fits r)
