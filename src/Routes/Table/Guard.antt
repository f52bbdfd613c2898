-- ===== src/Routes/Table/Guard.antt =====
-- How long a route that was just written is guarded against stragglers of its flood.
use wifipi.Prelude.Result.{ok}
use wifipi.Routes.Entry.{whole_seconds}
use wifipi.Prelude.Dict.{get}
use wifipi.Prelude.Time.{seconds, Micros}
use wifipi.Prelude.Int.{ℤ}
use wifipi.Bytes.{Bytes}
use wifipi.Prelude.{
  ◌%◌, arith, gt→leb, ◌+◌, if◌then◌else◌, ◌≤◌, ◌<◌, false, ◌≡◌, Option, ℕ, list_eq, some,
}
use wifipi.Routes.Entry.RoundTrip.{InRange, entry_bytes, unpack_entry-entry_bytes}
use wifipi.Routes.Table.{
  RouteTable, Clocks, Heard, settling, kept, guarded, is_self, learn_worse, learn,
}
use wifipi.Routes.Table.Hops.{learn_known}

module _ (now : Clocks) (id : Bytes) (h : Heard) (t : RouteTable) (next_hop : Bytes) (hops : ℕ)
    (rssi : Option ℤ) (wrote : Micros) (r : InRange next_hop hops rssi wrote)
    (other : is_self t id ≡ false)
    (there : get t.hot id ≡ some (entry_bytes next_hop hops rssi wrote))
    (longer : hops < h.hops) where
  learn_longer :
      (learn now id h t).0
      ≡ (if guarded now.wall (whole_seconds wrote) then ok kept else ok settling)
  unfolding learn_worse
  learn_longer =
      let worse = gt→leb h.hops hops longer in
      rw
        (
          learn_known now id h t (entry_bytes next_hop hops rssi wrote) other there,
          unpack_entry-entry_bytes next_hop hops rssi wrote r,
          worse,
        )
        (ground arith)

  -- A longer copy that comes within 2 s of the write of a route in range is ignored.
  pub guard_kept : now.wall ≤ wrote + seconds 2 → (learn now id h t).0 ≡ ok kept
  guard_kept soon = rw learn_longer (ground arith)

  -- A longer copy that comes more than 3 s after the write of a route in range starts or sharpens a
  -- settle.
  pub guard_over : wrote + seconds 3 < now.wall → (learn now id h t).0 ≡ ok settling
  guard_over late = rw learn_longer (ground arith)

  pub guard_lem :
      (now.wall + wrote % seconds 1 ≤ wrote + seconds 3 → (learn now id h t).0 ≡ ok kept)
      × (wrote + seconds 3 < now.wall + wrote % seconds 1 → (learn now id h t).0 ≡ ok settling)
  guard_lem = (λ soon. rw learn_longer (ground arith), λ late. rw learn_longer (ground arith))
