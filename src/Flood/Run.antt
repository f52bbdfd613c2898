-- ===== src/Flood/Run.antt =====
-- A flooder over a sequence of events: packets that arrive, and turns of the loop that transmit.
use wifipi.Prelude.Int.{ℤ}
use wifipi.Prelude.Time.{Micros}
use wifipi.Frame.{Packet}
use wifipi.Prelude.Result.{ok, Result}
use wifipi.Prelude.{◌+◌, List, ℕ, Option, list_eq, pair_eq, [], ◌∷◌}
use wifipi.Flood.{Flooder, Readings, Verdict, scheduled, on_receive, due}

pub data Event : Type 0 where
  receive : Readings → Packet → Option ℤ → Event
  transmit : Micros → Event

-- 1 for a verdict that queues a relay
abbrev pub queued : Result Verdict → ℕ
queued (ok scheduled) = 1
queued _ = 0

module _ (uniform : Micros → Micros → Micros) where
  abbrev pub step : Event → Flooder → Flooder
  step (receive r p rssi) f = (on_receive uniform r p rssi f).1
  step (transmit now) f = (due now f).1

  -- the relays that one event queues
  abbrev pub queued_by : Event → Flooder → ℕ
  queued_by (receive r p rssi) f = queued (on_receive uniform r p rssi f).0
  queued_by (transmit now) f = 0

  unfoldable pub run : List Event → Flooder → Flooder
  run [] f = f
  run (ev ∷ evs) f = run evs (step ev f)

  -- how many relays a sequence of events queues
  unfoldable pub count_queued : List Event → Flooder → ℕ
  count_queued [] f = 0
  count_queued (ev ∷ evs) f = queued_by ev f + count_queued evs (step ev f)
