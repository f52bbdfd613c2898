-- ===== src/Flood/Balance.antt =====
-- No relay is lost or sent twice: the account of the relays.
use wifipi.Flood.Delay.{relay_delay}
use wifipi.Prelude.Int.{ℤ}
use wifipi.Prelude.Dict.{
  Dict, length-set_absent, remove_absent, length-set_present, length-remove, Distinct, get,
}
use wifipi.Prelude.Time.{Micros}
use wifipi.Frame.{Key, relayed, key, Packet}
use wifipi.Prelude.Result.{ok, err, Result}
use wifipi.Prelude.{
  eq_iff, Option-cases, inr, inl, none, Bool-cases, some, length, arith, ◌+◌, ◌≡◌, Option, List, ℕ,
  list_eq, pair_eq, [], ◌∷◌, refl,
}
use wifipi.Flood.Seen
use wifipi.Flood.{
  is_own, Pending, Flooder, Readings, on_pending, on_other, schedule, on_receive, due,
}
use wifipi.Flood.Due.{waiting, expired, after_due, due-after_due}
use wifipi.Flood.Verdicts.{
  IsValid, own_not_pending, on_receive-own, on_receive_pending, on_receive_other,
  on_receive-IsValid,
}
use wifipi.Flood.Run.{Event, receive, transmit, queued, step, queued_by, run, count_queued}

-- Relays that were sent, that were cancelled, and that still wait.
abbrev pub total : Flooder → ℕ
total f = f.stats.relayed + f.stats.cancelled + length f.pending

length-waiting :
    (now : Micros) (d : Dict Key Pending)
    → length (waiting now d) + length (expired now d) ≡ length d
unfolding waiting expired
length-waiting now [] = refl
length-waiting now ((k, q) ∷ d) = ground (arith, length-waiting now d)

get-waiting :
    (now : Micros) (k : Key) (q : Pending) (d : Dict Key Pending)
    → Distinct d
    → get (waiting now d) k ≡ some q
    → get d k ≡ some q
unfolding waiting get
get-waiting now k q [] u h = h
get-waiting now k q ((i, w) ∷ d) u h = ground (arith, eq_iff i k, get-waiting now k q d u.1)

get-waiting-none :
    (now : Micros) (k : Key) (d : Dict Key Pending) → get d k ≡ none → get (waiting now d) k ≡ none
unfolding waiting get
get-waiting-none now k [] h = h
get-waiting-none now k ((i, w) ∷ d) h = ground (arith, get-waiting-none now k d)

Distinct-waiting : (now : Micros) (d : Dict Key Pending) → Distinct d → Distinct (waiting now d)
unfolding waiting
Distinct-waiting now [] u = tt
Distinct-waiting now ((k, q) ∷ d) u =
    ground (arith, Distinct-waiting now d u.1, get-waiting-none now k d u.0)

-- `due` keeps the invariant of the flooder.
pub due-IsValid : (now : Micros) (f : Flooder) → IsValid f → IsValid (due now f).1
due-IsValid now f v = rw (due-after_due now f v.distinct) (
    unfold after_due in
    record {
      cache = v.cache;
      distinct = Distinct-waiting now f.pending v.distinct;
      foreign = λ k q h. v.foreign k q (get-waiting now k q f.pending v.distinct h);
      keyed = λ k q h. v.keyed k q (get-waiting now k q f.pending v.distinct h);
    })

on_pending-total :
    (p : Packet) (q : Pending) (f : Flooder)
    → Distinct f.pending
    → get f.pending (key p) ≡ some q
    → total (on_pending p q f).1 ≡ total f + queued (on_pending p q f).0
unfolding on_pending
on_pending-total p q f u h = ground (
  arith,
  length-remove (key p) q f.pending u h,
  length-set_present (key p) (record q { heard = q.heard + 1 }) q f.pending h,
)

schedule-total :
    (m : Result (Option Packet)) (p : Packet) (at : Micros) (f : Flooder)
    → get f.pending (key p) ≡ none
    → total (schedule m p at f).1 ≡ total f + queued (schedule m p at f).0
unfolding schedule
schedule-total (err e) p at f h = omega arith
schedule-total (ok none) p at f h = omega arith
schedule-total (ok (some q)) p at f h =
    omega (
      arith,
      length-set_absent (key p) (record { packet = q; send_at = at; heard = 0 }) f.pending h,
    )

module _ (uniform : Micros → Micros → Micros) (r : Readings) (p : Packet) (rssi : Option ℤ)
    (f : Flooder) where
  on_other-total :
      get f.pending (key p) ≡ none
      → total (on_other uniform r p rssi f).1 ≡ total f + queued (on_other uniform r p rssi f).0
  unfolding on_other
  on_other-total h = elim (Bool-cases (Seen.seen r.seen_at (key p) f.seen).0) [
    | inl hit ↦ rw hit (omega arith)
    | inr new ↦ rw new (
        schedule-total (relayed p) p (r.scheduled_at + relay_delay uniform rssi)
          (record f { seen = Seen.add r.added_at (key p) (Seen.seen r.seen_at (key p) f.seen).1 })
          h)
  ]

  on_receive-total :
      IsValid f
      → total (on_receive uniform r p rssi f).1 ≡ total f + queued (on_receive uniform r p rssi f).0
  on_receive-total v = elim (Bool-cases (is_own f p)) [
    | inl mine ↦
        rw
          (
            on_receive-own uniform r p rssi f mine,
            remove_absent (key p) f.pending (own_not_pending f p v mine),
          )
          (omega arith)
    | inr other ↦ elim (Option-cases (get f.pending (key p))) [
      | inl absent ↦ rw (on_receive_other uniform r p rssi f other absent) (on_other-total absent)
      | inr (q, stored) ↦
          rw (on_receive_pending uniform r p rssi f q other stored)
            (on_pending-total p q f v.distinct stored)
    ]
  ]

module _ (uniform : Micros → Micros → Micros) where
  pub step-IsValid : (ev : Event) (f : Flooder) → IsValid f → IsValid (step uniform ev f)
  step-IsValid (receive r p rssi) f v = on_receive-IsValid uniform r p rssi f v
  step-IsValid (transmit now) f v = due-IsValid now f v

  step-total :
      (ev : Event) (f : Flooder)
      → IsValid f
      → total (step uniform ev f) ≡ total f + queued_by uniform ev f
  step-total (receive r p rssi) f v = on_receive-total uniform r p rssi f v
  step-total (transmit now) f v =
      rw (due-after_due now f v.distinct, step)
        (unfold after_due in omega (arith, length-waiting now f.pending))

  -- Every relay that a valid flooder queues is accounted for once: over any sequence of packets and
  -- transmissions, the relays sent, cancelled and still pending grow by those queued, and
  -- the invariant of the flooder holds at the end.
  pub run-total :
      (evs : List Event) (f : Flooder)
      → IsValid f
      → (total (run uniform evs f) ≡ total f + count_queued uniform evs f)
        × IsValid (run uniform evs f)
  unfolding run count_queued
  run-total [] f v = (omega arith, v)
  run-total (ev ∷ evs) f v =
      let (sum, valid) = run-total evs (step uniform ev f) (step-IsValid ev f v) in
      (omega (arith, sum, step-total ev f v), valid)
