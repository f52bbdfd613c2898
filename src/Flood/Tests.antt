-- ===== src/Flood/Tests.antt =====
-- The theorems on the flood at a node that hears one packet, again and again.
use wifipi.Prelude.{
  ◌↔◌, List, ◌≡◌, ◌<◌, ◌+◌, refl, [], ◌∷◌, replicate, some, none, false, list_eq, pair_eq, arith,
}
use wifipi.Prelude.Int.{ℤ, negsuc}
use wifipi.Prelude.Time.{Micros, seconds, millis}
use wifipi.Prelude.Result.{ok}
use wifipi.Prelude.Dict.{Distinct, get, set}
use wifipi.Frame.{relayed, Packet, key, broadcast}
use wifipi.Frame.Wire
use wifipi.Prelude.Equality.{list_beq, pair_beq}
use wifipi.Flood.{
  on_other, schedule, Flooder, Pending, Readings, cancelled, scheduled, is_own, on_receive,
}
use wifipi.Flood.Seen
use wifipi.Flood.Delay.{IsUniform, relay_delay, relay_delay_far_first}
use wifipi.Flood.Verdicts.{IsValid}
use wifipi.Flood.Run.{Event, receive, transmit, run, count_queued}
use wifipi.Flood.Balance.{total, run-total}
use wifipi.Flood.Once.{count_for, queued_once}
use wifipi.Flood.Cancel.{Copy, hear, cancelled_at_threshold}
use wifipi.Flood.Schedule.{IsQueued, on_receive-scheduled_iff, scheduled-IsQueued}

abbrev news : Packet
news = record {
  type = 2;
  flags = 0;
  hop_limit = 3;
  packet_id = 9 ∷ 9 ∷ 9 ∷ 9 ∷ [];
  src = replicate 16 5;
  dst = broadcast;
  payload = 1 ∷ [];
  version = 1;
}

-- the least draw
abbrev lowest : Micros → Micros → Micros
lowest a b = a

abbrev highest : Micros → Micros → Micros
highest a b = b

lowest-IsUniform : IsUniform lowest
lowest-IsUniform = record { at_least = λ a b h. omega arith; at_most = λ a b h. h }

highest-IsUniform : IsUniform highest
highest-IsUniform = record { at_least = λ a b h. h; at_most = λ a b h. omega arith }

abbrev at : Micros → Readings
at t = record { seen_at = t; added_at = t; scheduled_at = t }

abbrev weak : ℤ
weak = negsuc 95

abbrev idle : Flooder
idle = record {
  own_id = some (replicate 16 6);
  threshold = 3;
  seen = Seen.empty;
  pending = [];
  stats = record { relayed = 0; cancelled = 0; duplicates = 0; expired_hops = 0 };
}

abbrev waiting_news : Pending
waiting_news = record { packet = record news { hop_limit = 2 }; send_at = millis 15; heard = 0 }

-- `idle` with the relay of `news` pending
abbrev busy : Flooder
busy = record idle { pending = (key news, waiting_news) ∷ [] }

news-IsValid : Wire.IsValid news
news-IsValid = record {
  version_ok = refl;
  type_fits = omega arith;
  flags_fit = omega arith;
  hops_fit = omega arith;
  id_length = refl;
  id_bytes = ground arith;
  src_length = refl;
  dst_length = refl;
}

idle-IsValid : IsValid idle
unfolding get
idle-IsValid = record {
  cache = record { bounded = omega arith; distinct = tt };
  distinct = tt;
  foreign = λ k q h. cc;
  keyed = λ k q h. cc;
}

idle_schedules : (on_receive lowest (at 0) news (some weak) idle).0 ≡ ok scheduled
unfolding on_receive is_own list_beq get on_other Seen.seen schedule relayed
idle_schedules = refl

queued_once_example :
    count_for lowest
      (key news)
      (receive (at 5) news none ∷ transmit (seconds 1) ∷ receive (at (seconds 2)) news none ∷ [])
      (on_receive lowest (at 0) news (some weak) idle).1
    ≡ 0
queued_once_example =
    queued_once lowest (at 0) news (some weak) idle
      (receive (at 5) news none ∷ transmit (seconds 1) ∷ receive (at (seconds 2)) news none ∷ [])
      idle-IsValid idle_schedules (omega arith) (omega arith, (omega arith, tt))

abbrev copy : Micros → Copy
copy t = record { at = at t; packet = news; rssi = none }

busy_other : is_own busy news ≡ false
unfolding is_own list_beq
busy_other = refl

busy_holds : get busy.pending (key news) ≡ some waiting_news
unfolding get pair_beq list_beq
busy_holds = refl

cancelled_at_threshold_example :
    let g = hear lowest (copy 1 ∷ copy 2 ∷ []) busy in
    (get g.pending (key news) ≡ some (record waiting_news { heard = 2 }))
    × ((on_receive lowest (at 3) news none g).0 ≡ ok cancelled)
    × (get (on_receive lowest (at 3) news none g).1.pending (key news) ≡ none)
    × ((on_receive lowest (at 3) news none g).1.stats.cancelled ≡ g.stats.cancelled + 1)
cancelled_at_threshold_example =
    cancelled_at_threshold lowest news (copy 1 ∷ copy 2 ∷ []) (copy 3) waiting_news busy busy_other
      busy_holds (refl, (refl, tt)) refl refl

abbrev exchange : List Event
exchange = receive (at 0) news (some weak) ∷ transmit (seconds 1) ∷ []

run-total_example :
    (total (run lowest exchange idle) ≡ total idle + count_queued lowest exchange idle)
    × IsValid (run lowest exchange idle)
run-total_example = run-total lowest exchange idle idle-IsValid

on_receive-scheduled_iff_example :
    ((on_receive lowest (at 0) news (some weak) idle).0 ≡ ok scheduled) ↔ (
      (is_own idle news ≡ false)
      × (get idle.pending (key news) ≡ none)
      × ((Seen.seen 0 (key news) idle.seen).0 ≡ false)
      × (0 < 3))
on_receive-scheduled_iff_example =
    on_receive-scheduled_iff lowest (at 0) news (some weak) idle news-IsValid

scheduled-IsQueued_example :
    (q : Pending) × IsQueued news 0 q
    × ((on_receive lowest (at 0) news (some weak) idle).1.pending ≡ set (key news) q [])
scheduled-IsQueued_example =
    scheduled-IsQueued lowest (at 0) news (some weak) idle news-IsValid lowest-IsUniform
      idle_schedules

busy-Distinct : Distinct busy.pending
unfolding get
busy-Distinct = (refl, tt)

relay_delay_far_first_example :
    relay_delay highest (some weak) < relay_delay lowest (some (negsuc 30))
relay_delay_far_first_example =
    relay_delay_far_first highest lowest weak (negsuc 30) highest-IsUniform lowest-IsUniform
      (omega arith)
