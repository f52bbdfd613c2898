-- ===== src/Flood/Schedule.antt =====
-- When a packet is queued for relay, and with what.
use wifipi.Prelude.Dict.{get-set_self, get, set}
use wifipi.Prelude.Result.{ok}
use wifipi.Prelude.Int.{ℤ}
use wifipi.Frame.{key, Packet}
use wifipi.Prelude.Time.{millis, Micros}
use wifipi.Prelude.{
  ◌∙◌, some, Option-cases, inr, inl, Bool-cases, none, lt→ltb, ◌<◌, ◌≤◌, false, arith, ◌↔◌, ◌≢◌,
  ◌+◌, ◌-◌, Option, ◌≡◌, list_eq, pair_eq, refl,
}
use wifipi.Frame.Wire
use wifipi.Frame.Relay.{relayed_lem}
use wifipi.Flood.Seen
use wifipi.Flood.Delay.{relay_delay, IsUniform, relay_delay_bounds}
use wifipi.Flood.{
  Verdict, Flooder, Pending, Readings, scheduled, on_pending, on_other, schedule, on_receive,
  is_own,
}
use wifipi.Flood.Cancel.{is_own-key, on_pending_more}
use wifipi.Flood.Verdicts.{on_receive-own, on_receive_pending, on_receive_other}

-- What the module's documentation promises a relay: the copy with one hop spent, due after a delay
-- of 10 ms to 230 ms, no other relay heard yet.
pub record IsQueued (p : Packet) (now : Micros) (q : Pending) : Type 0 where
  pub one_hop_spent : q.packet ≡ record p { hop_limit = p.hop_limit - 1 }
  pub not_before : now + millis 10 ≤ q.send_at
  pub not_after : q.send_at ≤ now + millis 230
  pub none_heard : q.heard ≡ 0

module _ (uniform : Micros → Micros → Micros) (r : Readings) (p : Packet) (rssi : Option ℤ)
    (f : Flooder) where
  on_other-scheduled_iff :
      Wire.IsValid p
      → ((on_other uniform r p rssi f).0 ≡ ok scheduled)
        ↔ (((Seen.seen r.seen_at (key p) f.seen).0 ≡ false) × (0 < p.hop_limit))
  unfolding on_other schedule
  on_other-scheduled_iff v =
      (λ h. ground (arith, relayed_lem p v), λ h. ground (arith, relayed_lem p v))

  not_pending_scheduled : (q : Pending) → (on_pending p q f).0 ≢ ok scheduled
  unfolding on_pending
  not_pending_scheduled q h = ground arith

  -- A valid packet is queued exactly if it is not our own, no relay of it is pending, the cache
  -- does not know it, and it has hops left.
  pub on_receive-scheduled_iff :
      Wire.IsValid p
      → ((on_receive uniform r p rssi f).0 ≡ ok scheduled) ↔ (
          (is_own f p ≡ false)
          × (get f.pending (key p) ≡ none)
          × ((Seen.seen r.seen_at (key p) f.seen).0 ≡ false)
          × (0 < p.hop_limit))
  on_receive-scheduled_iff v = (forward, backward)
    where
      forward :
          (on_receive uniform r p rssi f).0 ≡ ok scheduled
          → (is_own f p ≡ false)
            × (get f.pending (key p) ≡ none)
            × ((Seen.seen r.seen_at (key p) f.seen).0 ≡ false)
            × (0 < p.hop_limit)
      forward h = elim (Bool-cases (is_own f p)) [
        | inl mine ↦ absurd (cc (rw (on_receive-own uniform r p rssi f mine) at h))
        | inr other ↦ elim (Option-cases (get f.pending (key p))) [
          | inr (q, stored) ↦ absurd (
              not_pending_scheduled q
                (rw (on_receive_pending uniform r p rssi f q other stored) at h))
          | inl absent ↦
              let (new, hops) =
                (on_other-scheduled_iff v).0
                  (rw (on_receive_other uniform r p rssi f other absent) at h) in
              (other, absent, new, hops)
        ]
      ]

      backward :
          (is_own f p ≡ false)
            × (get f.pending (key p) ≡ none)
            × ((Seen.seen r.seen_at (key p) f.seen).0 ≡ false)
            × (0 < p.hop_limit)
          → (on_receive uniform r p rssi f).0 ≡ ok scheduled
      backward (other, absent, new, hops) =
          rw (on_receive_other uniform r p rssi f other absent)
            ((on_other-scheduled_iff v).1 (new, hops))

  -- What is queued for a valid packet is the packet with one hop spent, due 10 ms to 230 ms after
  -- the reading of the
  -- clock if the draw lies between its arguments; no other relay changes.
  pub scheduled-IsQueued :
      Wire.IsValid p
      → IsUniform uniform
      → (on_receive uniform r p rssi f).0 ≡ ok scheduled
      → (q : Pending) × IsQueued p r.scheduled_at q
        × ((on_receive uniform r p rssi f).1.pending ≡ set (key p) q f.pending)
  scheduled-IsQueued v u h =
      let (other, absent, new, hops) = (on_receive-scheduled_iff v).0 h in
      let (lo, hi) = relay_delay_bounds uniform rssi u in
      let q : Pending = record {
        packet = record p { hop_limit = p.hop_limit - 1 };
        send_at = r.scheduled_at + relay_delay uniform rssi;
        heard = 0;
      } in
      (
        q,
        record {
          one_hop_spent = refl;
          not_before = omega (arith, lo);
          not_after = omega (arith, hi);
          none_heard = refl;
        },
        rw (on_receive_other uniform r p rssi f other absent) (
            unfold on_other schedule in
            rw (new, relayed_lem p v) (rw (lt→ltb 0 p.hop_limit hops) refl)),
      )

  scheduled_keeps :
      Wire.IsValid p
      → (on_receive uniform r p rssi f).0 ≡ ok scheduled
      → ((on_receive uniform r p rssi f).1.own_id ≡ f.own_id)
        × ((on_receive uniform r p rssi f).1.threshold ≡ f.threshold)
  scheduled_keeps v h =
      let (other, absent, new, hops) = (on_receive-scheduled_iff v).0 h in
      rw (on_receive_other uniform r p rssi f other absent) (
        unfold on_other schedule in
        rw (new, relayed_lem p v) (rw (lt→ltb 0 p.hop_limit hops) (refl, refl)))

  -- The next copy of a packet that was just queued is answered `duplicate` if the threshold is
  -- above 1.
  pub repeated_duplicate :
      (again : Readings) (signal : Option ℤ)
      → Wire.IsValid p
      → IsUniform uniform
      → 1 < f.threshold
      → (on_receive uniform r p rssi f).0 ≡ ok scheduled
      → (on_receive uniform again p signal (on_receive uniform r p rssi f).1).0
        ≡ ok Verdict.duplicate
  repeated_duplicate again signal v u many h =
      let (other, absent, new, hops) = (on_receive-scheduled_iff v).0 h in
      let (q, queued, there) = scheduled-IsQueued v u h in
      let (id, limit) = scheduled_keeps v h in
      let f1 = (on_receive uniform r p rssi f).1 in
      let stored : get f1.pending (key p) ≡ some q = rw there (get-set_self (key p) q f.pending) in
      let mine = is_own-key f1 f p p id refl ∙ other in
      rw
        (
          on_receive_pending uniform again p signal f1 q mine stored,
          on_pending_more p q f1 (omega (arith, queued.none_heard, limit, many)),
        )
        refl
