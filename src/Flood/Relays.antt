-- ===== src/Flood/Relays.antt =====
-- The pending relays can all be written: what `due` returns never fails to be sent.
use wifipi.Prelude.{
  ◌-◌, ltb, ◌+◌, ◌≡◌, leb, Option, some, [], ◌∷◌, list_eq, pair_eq, inl, inr, All, Bool-cases,
  Option-cases,
}
use wifipi.Prelude.Int.{ℤ}
use wifipi.Prelude.Dict.{Dict, get, AllValues, AllValues-set, AllValues-remove, AllValues-get}
use wifipi.Prelude.Time.{Micros}
use wifipi.Frame.{Packet, Key, key, relayed}
use wifipi.Frame.Wire
use wifipi.Frame.Relay.{relayed_lem, relayed-IsValid}
use wifipi.Flood.{Flooder, Pending, Readings, is_own, on_pending, on_other, schedule, on_receive}
use wifipi.Flood.Delay.{relay_delay}
use wifipi.Flood.Seen
use wifipi.Flood.Due.{waiting, expired}
use wifipi.Flood.Verdicts.{on_receive-own, on_receive_pending, on_receive_other}

abbrev pub IsSendable : Pending → Type 0
IsSendable q = Wire.IsValid q.packet

abbrev pub AllSendable : Dict Key Pending → Type 0
AllSendable = AllValues IsSendable

on_pending-AllSendable :
    (p : Packet) (q : Pending) (f : Flooder)
    → AllSendable f.pending
    → get f.pending (key p) ≡ some q
    → AllSendable (on_pending p q f).1.pending
unfolding on_pending
on_pending-AllSendable p q f a stored = elim (Bool-cases (leb f.threshold (q.heard + 1))) [
  | inl enough ↦ rw (enough, on_pending) (AllValues-remove IsSendable (key p) f.pending a)
  | inr more ↦
      rw (more, on_pending)
        (AllValues-set IsSendable (key p) (record q { heard = q.heard + 1 }) f.pending
          (AllValues-get IsSendable (key p) q f.pending stored a) a)
]

schedule-AllSendable :
    (p : Packet) (at : Micros) (f : Flooder)
    → Wire.IsValid p
    → AllSendable f.pending
    → AllSendable (schedule (relayed p) p at f).1.pending
unfolding schedule
schedule-AllSendable p at f v a = elim (Bool-cases (ltb 0 p.hop_limit)) [
  | inl more ↦
      rw (relayed_lem p v, more)
        (AllValues-set IsSendable (key p)
          (record { packet = record p { hop_limit = p.hop_limit - 1 }; send_at = at; heard = 0 })
          f.pending (relayed-IsValid p v) a)
  | inr last ↦ rw (relayed_lem p v, last) a
]

on_other-AllSendable :
    (uniform : Micros → Micros → Micros) (r : Readings) (p : Packet) (rssi : Option ℤ) (f : Flooder)
    → Wire.IsValid p
    → AllSendable f.pending
    → AllSendable (on_other uniform r p rssi f).1.pending
unfolding on_other
on_other-AllSendable uniform r p rssi f v a =
    elim (Bool-cases (Seen.seen r.seen_at (key p) f.seen).0) [
      | inl hit ↦ rw (hit, on_other) a
      | inr new ↦
          rw (new, on_other)
            (schedule-AllSendable p (r.scheduled_at + relay_delay uniform rssi)
              (record f {
                seen = Seen.add r.added_at (key p) (Seen.seen r.seen_at (key p) f.seen).1;
              })
              v a)
    ]

-- `on_receive` of a valid packet keeps every pending relay in the ranges of the wire format.
pub on_receive-AllSendable :
    (uniform : Micros → Micros → Micros) (r : Readings) (p : Packet) (rssi : Option ℤ) (f : Flooder)
    → Wire.IsValid p
    → AllSendable f.pending
    → AllSendable (on_receive uniform r p rssi f).1.pending
on_receive-AllSendable uniform r p rssi f v a = elim (Bool-cases (is_own f p)) [
  | inl mine ↦
      rw (on_receive-own uniform r p rssi f mine) (AllValues-remove IsSendable (key p) f.pending a)
  | inr other ↦ elim (Option-cases (get f.pending (key p))) [
    | inl absent ↦
        rw (on_receive_other uniform r p rssi f other absent)
          (on_other-AllSendable uniform r p rssi f v a)
    | inr (q, stored) ↦
        rw (on_receive_pending uniform r p rssi f q other stored)
          (on_pending-AllSendable p q f a stored)
  ]
]

pub waiting-AllSendable :
    (now : Micros) (d : Dict Key Pending) → AllSendable d → AllSendable (waiting now d)
unfolding waiting
waiting-AllSendable now [] a = tt
waiting-AllSendable now ((k, q) ∷ d) a = elim (Bool-cases (leb q.send_at now)) [
  | inl done ↦ rw (done, waiting) (waiting-AllSendable now d a.1)
  | inr later ↦ rw (later, waiting) (a.0, waiting-AllSendable now d a.1)
]

pub expired-All :
    (now : Micros) (d : Dict Key Pending) → AllSendable d → All Wire.IsValid (expired now d)
unfolding expired
expired-All now [] a = tt
expired-All now ((k, q) ∷ d) a = elim (Bool-cases (leb q.send_at now)) [
  | inl done ↦ rw (done, expired) (a.0, expired-All now d a.1)
  | inr later ↦ rw (later, expired) (expired-All now d a.1)
]
