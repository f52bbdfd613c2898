-- ===== src/Flood/Once.antt =====
-- A packet is queued for relay at most once while the cache remembers it.
use wifipi.Prelude.Dict.{Distinct, get}
use wifipi.Prelude.Int.{ℤ}
use wifipi.Frame.{key, Packet, Key}
use wifipi.Prelude.Time.{Micros}
use wifipi.Prelude.Result.{ok, err, Result}
use wifipi.Prelude.{
  none, ◌<◌, eq_iff, sym, Option-cases, some, inr, inl, arith, ◌==◌, Bool-cases, ◌≢◌, ◌+◌, suc, ◌≡◌,
  if◌then◌else◌, Option, ℕ, ◌≤◌, List, list_eq, pair_eq, [], ◌∷◌, refl,
}
use wifipi.Flood.Seen
use wifipi.Flood.Seen.Memory.{
  Known, Known-fewer, Known-add, Known-add_self, Known-seen, Known-seen_self, seen_keeps,
}
use wifipi.Flood.{
  is_own, Pending, Flooder, Readings, scheduled, on_pending, on_other, schedule, on_receive, due,
}
use wifipi.Flood.Due.{after_due, due-after_due}
use wifipi.Flood.Verdicts.{
  IsValid, on_receive-own, on_receive_pending, on_receive_other, on_receive-IsValid,
}
use wifipi.Flood.Balance.{step-IsValid}
use wifipi.Flood.Run.{Event, receive, transmit, queued, step}

-- The relays of one packet that a sequence of events queues.
queued_for : (Micros → Micros → Micros) → Key → Event → Flooder → ℕ
queued_for uniform k (receive r p rssi) f =
    if key p == k then queued (on_receive uniform r p rssi f).0 else 0
queued_for uniform k (transmit now) f = 0

pub count_for : (Micros → Micros → Micros) → Key → List Event → Flooder → ℕ
count_for uniform k [] f = 0
count_for uniform k (ev ∷ evs) f =
    queued_for uniform k ev f + count_for uniform k evs (step uniform ev f)

-- how many packets arrive
abbrev pub arrivals : List Event → ℕ
arrivals [] = 0
arrivals (receive r p rssi ∷ evs) = suc (arrivals evs)
arrivals (transmit now ∷ evs) = arrivals evs

-- every packet is looked up at `limit` at the latest
abbrev pub Until : Micros → List Event → Type 0
Until limit [] = Unit
Until limit (receive r p rssi ∷ evs) = (r.seen_at ≤ limit) × Until limit evs
Until limit (transmit now ∷ evs) = Until limit evs

seen-schedule :
    (m : Result (Option Packet)) (p : Packet) (at : Micros) (f : Flooder)
    → (schedule m p at f).1.seen ≡ f.seen
unfolding schedule
seen-schedule (err e) p at f = refl
seen-schedule (ok none) p at f = refl
seen-schedule (ok (some q)) p at f = refl

module _ (uniform : Micros → Micros → Micros) (r : Readings) (p : Packet) (rssi : Option ℤ)
    (f : Flooder) (k : Key) (t : Micros) (m : ℕ) where
  on_other-Known :
      k ≢ key p → Known k t (suc m) f.seen → Known k t m (on_other uniform r p rssi f).1.seen
  unfolding on_other
  on_other-Known ne h =
      let (hit_case, miss_case) = Known-seen k (key p) t r.seen_at m f.seen ne h in
      elim (Bool-cases (Seen.seen r.seen_at (key p) f.seen).0) [
        | inl hit ↦ rw hit hit_case
        | inr new ↦
            rw (new, seen-schedule)
              (Known-add k (key p) t r.added_at m (Seen.seen r.seen_at (key p) f.seen).1 ne
                (miss_case new))
      ]

  on_other_self :
      k ≡ key p
      → r.seen_at ≤ t + f.seen.ttl
      → Known k t m f.seen
      → (queued (on_other uniform r p rssi f).0 ≡ 0)
        × Known k t m (on_other uniform r p rssi f).1.seen
  unfolding on_other
  on_other_self same young h =
      let (hit, kept) = Known-seen_self k t r.seen_at m f.seen h young in
      rw (← same, hit) (refl, kept)

  on_pending-queued :
      (q : Pending) → (queued (on_pending p q f).0 ≡ 0) × ((on_pending p q f).1.seen ≡ f.seen)
  unfolding on_pending
  on_pending-queued q = ground arith

  -- Another packet costs the memory of this one at most one place; a copy of it costs nothing and
  -- is not queued.
  on_receive-Known :
      r.seen_at ≤ t + f.seen.ttl
      → Known k t (suc m) f.seen
      → (queued_for uniform k (receive r p rssi) f ≡ 0)
        × Known k t m (on_receive uniform r p rssi f).1.seen
  unfolding queued_for
  on_receive-Known young h = elim (Bool-cases (is_own f p)) [
    | inl mine ↦
        rw (on_receive-own uniform r p rssi f mine)
          (ground arith, Known-fewer k t (suc m) m f.seen (omega arith) h)
    | inr other ↦ elim (Option-cases (get f.pending (key p))) [
      | inr (q, stored) ↦ rw (on_receive_pending uniform r p rssi f q other stored) (
        ground (arith, on_pending-queued q),
        rw (on_pending-queued q).1 (Known-fewer k t (suc m) m f.seen (omega arith) h),
      )
      | inl absent ↦
          rw (on_receive_other uniform r p rssi f other absent) (elim (Bool-cases (key p == k)) [
            | inl same ↦
                let e : k ≡ key p = sym ((eq_iff (key p) k).0 same) in
                let (none_queued, kept) =
                  on_other_self e young (Known-fewer k t (suc m) m f.seen (omega arith) h) in
                rw same (none_queued, kept)
            | inr differ ↦
                rw differ (refl, on_other-Known (λ e. ground (arith, eq_iff (key p) k)) h)
          ])
    ]
  ]

seen-due : (now : Micros) (f : Flooder) → Distinct f.pending → (due now f).1.seen ≡ f.seen
seen-due now f u = rw (due-after_due now f u) (unfold after_due in refl)

seen-on_other :
    (uniform : Micros → Micros → Micros) (r : Readings) (p : Packet) (rssi : Option ℤ) (f : Flooder)
    → ((on_other uniform r p rssi f).1.seen.ttl ≡ f.seen.ttl)
      × ((on_other uniform r p rssi f).1.seen.capacity ≡ f.seen.capacity)
unfolding on_other Seen.add
seen-on_other uniform r p rssi f = elim (Bool-cases (Seen.seen r.seen_at (key p) f.seen).0) [
  | inl hit ↦ rw hit (ground (arith, seen_keeps r.seen_at (key p) f.seen))
  | inr new ↦ rw (new, seen-schedule) (ground (arith, seen_keeps r.seen_at (key p) f.seen))
]

-- The settings of the cache stay.
ttl-on_receive :
    (uniform : Micros → Micros → Micros) (r : Readings) (p : Packet) (rssi : Option ℤ) (f : Flooder)
    → (on_receive uniform r p rssi f).1.seen.ttl ≡ f.seen.ttl
ttl-on_receive uniform r p rssi f = elim (Bool-cases (is_own f p)) [
  | inl mine ↦ rw (on_receive-own uniform r p rssi f mine)
  | inr other ↦ elim (Option-cases (get f.pending (key p))) [
    | inr (q, stored) ↦
        rw (on_receive_pending uniform r p rssi f q other stored)
          (ground (arith, on_pending-queued uniform r p rssi f (key p) 0 0 q))
    | inl absent ↦
        rw (on_receive_other uniform r p rssi f other absent) (seen-on_other uniform r p rssi f).0
  ]
]

count_for-Known :
    (uniform : Micros → Micros → Micros) (k : Key) (t : Micros) (evs : List Event) (f : Flooder)
    → IsValid f
    → Known k t (arrivals evs) f.seen
    → Until (t + f.seen.ttl) evs
    → count_for uniform k evs f ≡ 0
unfolding count_for queued_for
count_for-Known uniform k t [] f v h young = refl
count_for-Known uniform k t (receive r p rssi ∷ evs) f v h young =
    let (zero_now, kept) = on_receive-Known uniform r p rssi f k t (arrivals evs) young.0 h in
    let later =
      count_for-Known uniform k t evs (on_receive uniform r p rssi f).1
        (on_receive-IsValid uniform r p rssi f v) kept
        (rw (ttl-on_receive uniform r p rssi f) young.1) in
    omega (arith, zero_now, later)
count_for-Known uniform k t (transmit now ∷ evs) f v h young =
    let same = seen-due now f v.distinct in
    let later =
      count_for-Known uniform k t evs (due now f).1 (step-IsValid uniform (transmit now) f v)
        (rw same h) (rw same young) in
    omega (arith, later)

Known-on_other :
    (uniform : Micros → Micros → Micros) (r : Readings) (p : Packet) (rssi : Option ℤ) (f : Flooder)
    (m : ℕ)
    → m < f.seen.capacity
    → (on_other uniform r p rssi f).0 ≡ ok scheduled
    → Known (key p) r.added_at m (on_other uniform r p rssi f).1.seen
unfolding on_other
Known-on_other uniform r p rssi f m room h =
    elim (Bool-cases (Seen.seen r.seen_at (key p) f.seen).0) [
      | inl hit ↦ absurd (cc (rw hit at h))
      | inr new ↦
          rw (new, seen-schedule)
            (Known-add_self (key p) r.added_at m (Seen.seen r.seen_at (key p) f.seen).1
              (ground (arith, seen_keeps r.seen_at (key p) f.seen)))
    ]

Known-schedule :
    (uniform : Micros → Micros → Micros) (r : Readings) (p : Packet) (rssi : Option ℤ) (f : Flooder)
    (m : ℕ)
    → m < f.seen.capacity
    → (on_receive uniform r p rssi f).0 ≡ ok scheduled
    → Known (key p) r.added_at m (on_receive uniform r p rssi f).1.seen
Known-schedule uniform r p rssi f m room h = elim (Bool-cases (is_own f p)) [
  | inl mine ↦ absurd (cc (rw (on_receive-own uniform r p rssi f mine) at h))
  | inr other ↦ elim (Option-cases (get f.pending (key p))) [
    | inr (q, stored) ↦
        let answer = rw (on_receive_pending uniform r p rssi f q other stored) at h in
        absurd (ground (arith, on_pending-queued uniform r p rssi f (key p) 0 0 q, answer))
    | inl absent ↦ rw (on_receive_other uniform r p rssi f other absent) (
        Known-on_other uniform r p rssi f m room
          (rw (on_receive_other uniform r p rssi f other absent) at h))
  ]
]

-- Once a valid flooder has queued a packet for relay, no copy of it is queued again while the cache
-- remembers it: whatever arrives and whatever is sent, as long as fewer packets arrive than the
-- cache holds and they arrive within the time to live. So a packet cannot circulate between
-- neighbours.
pub queued_once :
    (uniform : Micros → Micros → Micros) (r : Readings) (p : Packet) (rssi : Option ℤ) (f : Flooder)
    (evs : List Event)
    → IsValid f
    → (on_receive uniform r p rssi f).0 ≡ ok scheduled
    → arrivals evs < f.seen.capacity
    → Until (r.added_at + f.seen.ttl) evs
    → count_for uniform (key p) evs (on_receive uniform r p rssi f).1 ≡ 0
queued_once uniform r p rssi f evs v h room young =
    count_for-Known uniform (key p) r.added_at evs (on_receive uniform r p rssi f).1
      (on_receive-IsValid uniform r p rssi f v)
      (Known-schedule uniform r p rssi f (arrivals evs) room h)
      (rw (ttl-on_receive uniform r p rssi f) young)
