-- ===== src/Flood/Verdicts.antt =====
-- The invariant of the flooder, and what `on_receive` answers.
use wifipi.Flood.Delay.{relay_delay}
use wifipi.Prelude.Int.{ℤ}
use wifipi.Prelude.Time.{Micros}
use wifipi.Flood.Seen.{SeenCache}
use wifipi.Prelude.Result.{err, Result, ok}
use wifipi.Bytes.{Bytes}
use wifipi.Prelude.Dict.{remove, get-set, Distinct-set, get-remove, Distinct-remove, get, Distinct}
use wifipi.Frame.{key, Key, Packet, relayed}
use wifipi.Prelude.{
  eq_iff, inr, ◌+◌, inl, leb, Option-cases, ◌==◌, none, Bool-cases, arith, true, some, false, ◌≡◌,
  Option, list_eq, pair_eq, refl,
}
use wifipi.Flood.Seen
use wifipi.Flood.Seen.Laws.{seen-IsValid, add-IsValid}
use wifipi.Flood.{
  Flooder, Pending, Readings, own, is_own, on_pending, schedule, on_other, on_receive,
}

-- A key whose originator is not this node.
abbrev pub IsForeign : Option Bytes → Key → Type 0
IsForeign none k = Unit
IsForeign (some id) k = (k.0 == id) ≡ false

pub record IsValid (f : Flooder) : Type 0 where
  pub cache : Seen.Laws.IsValid f.seen
  pub distinct : Distinct f.pending
  pub foreign : (k : Key) (q : Pending) → get f.pending k ≡ some q → IsForeign f.own_id k
  pub keyed : (k : Key) (q : Pending) → get f.pending k ≡ some q → key q.packet ≡ k

pub key-relayed : (p q : Packet) → relayed p ≡ ok (some q) → key q ≡ key p
unfolding relayed
key-relayed p q h = ground arith

is_own-IsForeign : (f : Flooder) (p : Packet) → is_own f p ≡ false → IsForeign f.own_id (key p)
unfolding is_own
is_own-IsForeign f p h = ground arith

pub own_not_pending :
    (f : Flooder) (p : Packet) → IsValid f → is_own f p ≡ true → get f.pending (key p) ≡ none
unfolding is_own
own_not_pending f p v h = elim (Option-cases (get f.pending (key p))) [
  | inl absent ↦ absent
  | inr (q, stored) ↦ absurd (ground (arith, v.foreign (key p) q stored))
]

on_pending-IsValid :
    (p : Packet) (q : Pending) (f : Flooder)
    → IsValid f
    → get f.pending (key p) ≡ some q
    → IsValid (on_pending p q f).1
unfolding on_pending
on_pending-IsValid p q f v stored = elim (Bool-cases (leb f.threshold (q.heard + 1))) [
  | inl enough ↦
      rw (enough, on_pending)
        (record {
          cache = v.cache;
          distinct = Distinct-remove (key p) f.pending v.distinct;
          foreign = λ k r h. v.foreign k r (ground (arith, get-remove (key p) k f.pending));
          keyed = λ k r h. v.keyed k r (ground (arith, get-remove (key p) k f.pending));
        })
  | inr more ↦
      rw (more, on_pending)
        (record {
          cache = v.cache;
          distinct = Distinct-set (key p) (record q { heard = q.heard + 1 }) f.pending v.distinct;
          foreign = λ k r h. ground (
            arith,
            get-set (key p) k (record q { heard = q.heard + 1 }) f.pending,
            eq_iff (key p) k,
            v.foreign k r,
            v.foreign k q,
          );
          keyed = λ k r h. ground (
            arith,
            get-set (key p) k (record q { heard = q.heard + 1 }) f.pending,
            eq_iff (key p) k,
            v.keyed k r,
            v.keyed k q,
          );
        })
]

schedule-IsValid :
    (p : Packet) (at : Micros) (f : Flooder)
    → IsValid f
    → is_own f p ≡ false
    → IsValid (schedule (relayed p) p at f).1
schedule-IsValid p at f v h = go (relayed p) refl
  where
    go : (r : Result (Option Packet)) → relayed p ≡ r → IsValid (schedule r p at f).1
    go (err e) m = unfold schedule in v
    go (ok none) m =
        unfold schedule in
        record { cache = v.cache; distinct = v.distinct; foreign = v.foreign; keyed = v.keyed }
    go (ok (some q)) m =
        let new : Pending = record { packet = q; send_at = at; heard = 0 } in
        unfold schedule in
        record {
          cache = v.cache;
          distinct = Distinct-set (key p) new f.pending v.distinct;
          foreign = λ k r g. ground (
            arith,
            get-set (key p) k new f.pending,
            eq_iff (key p) k,
            v.foreign k r,
            is_own-IsForeign f p h,
          );
          keyed = λ k r g. ground (
            arith,
            get-set (key p) k new f.pending,
            eq_iff (key p) k,
            v.keyed k r,
            key-relayed p q m,
          );
        }

with_seen-IsValid :
    (f : Flooder) (c : SeenCache Key)
    → IsValid f
    → Seen.Laws.IsValid c
    → IsValid (record f { seen = c })
with_seen-IsValid f c v w = record {
  cache = w;
  distinct = v.distinct;
  foreign = v.foreign;
  keyed = v.keyed;
}

on_other-IsValid :
    (uniform : Micros → Micros → Micros) (r : Readings) (p : Packet) (rssi : Option ℤ) (f : Flooder)
    → IsValid f
    → is_own f p ≡ false
    → IsValid (on_other uniform r p rssi f).1
unfolding on_other
on_other-IsValid uniform r p rssi f v h =
    let cache = (Seen.seen r.seen_at (key p) f.seen).1 in
    let valid = seen-IsValid r.seen_at (key p) f.seen v.cache in
    let stored = Seen.add r.added_at (key p) cache in
    elim (Bool-cases (Seen.seen r.seen_at (key p) f.seen).0) [
      | inl hit ↦
          rw hit
            (record { cache = valid; distinct = v.distinct; foreign = v.foreign; keyed = v.keyed })
      | inr new ↦ rw new (
          schedule-IsValid p (r.scheduled_at + relay_delay uniform rssi)
            (record f { seen = stored })
            (with_seen-IsValid f stored v (add-IsValid r.added_at (key p) cache valid))
            (unfold is_own in h))
    ]

module _ (uniform : Micros → Micros → Micros) (r : Readings) (p : Packet) (rssi : Option ℤ)
    (f : Flooder) where
  pub on_receive-own :
      is_own f p ≡ true
      → on_receive uniform r p rssi f ≡ (ok own, record f { pending = remove (key p) f.pending })
  unfolding on_receive
  on_receive-own h = rw h

  pub on_receive_pending :
      (q : Pending)
      → is_own f p ≡ false
      → get f.pending (key p) ≡ some q
      → on_receive uniform r p rssi f ≡ on_pending p q f
  unfolding on_receive
  on_receive_pending q h g = rw (h, g)

  pub on_receive_other :
      is_own f p ≡ false
      → get f.pending (key p) ≡ none
      → on_receive uniform r p rssi f ≡ on_other uniform r p rssi f
  unfolding on_receive
  on_receive_other h g = rw (h, g)

  -- `on_receive` keeps the invariant of a flooder, whatever the packet and the verdict: the seen
  -- cache is bounded, no packet is pending twice, none of our own packets is pending, and every
  -- pending packet stands under its own key.
  pub on_receive-IsValid : IsValid f → IsValid (on_receive uniform r p rssi f).1
  on_receive-IsValid v = elim (Bool-cases (is_own f p)) [
    | inl mine ↦ rw (on_receive-own mine) (record {
      cache = v.cache;
      distinct = Distinct-remove (key p) f.pending v.distinct;
      foreign = λ k q h. v.foreign k q (ground (arith, get-remove (key p) k f.pending));
      keyed = λ k q h. v.keyed k q (ground (arith, get-remove (key p) k f.pending));
    })
    | inr other ↦ elim (Option-cases (get f.pending (key p))) [
      | inl absent ↦
          rw (on_receive_other other absent) (on_other-IsValid uniform r p rssi f v other)
      | inr (q, stored) ↦ rw (on_receive_pending q other stored) (on_pending-IsValid p q f v stored)
    ]
  ]
