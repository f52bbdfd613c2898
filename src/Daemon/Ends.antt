-- ===== src/Daemon/Ends.antt =====
-- Bringing up the adapter ends, and reloads the driver at most twice.
use wifipi.Prelude.Result.{Result, ok, err}
use wifipi.Prelude.{
  false, not, none, subst, length, ◌⊎◌, ap, nat_beq, leb, refl, ◌||◌, arith, ◌<◌, Bool-cases, ◌-◌,
  if◌then◌else◌, All, ◌≡◌, ◌+◌, Option, ◌≤◌, ◌≢◌, ℕ, List, Bool, some, true, inl, inr, zero, suc,
  ◌∷◌, [],
}
use wifipi.Daemon.{
  leave, max_deaf_reloads, raised, delay, after_action, Try, End, stopped, ready, deaf, Action,
  reload, sleep, bring_up_from, bring_up, radio_hears, is_not_false,
}

abbrev pub reloads_in : List Action → ℕ
reloads_in [] = 0
reloads_in (reload n ∷ done) = suc (reloads_in done)
reloads_in (sleep n ∷ done) = reloads_in done

-- a sleep of 5 to 60 seconds
abbrev pub IsPatient : Action → Type 0
IsPatient (reload n) = Unit
IsPatient (sleep n) = (5 ≤ n) × (n ≤ 60)

-- Each reload and each sleep is a turn, so the last turn is the number of these from the first.
module _ (no_listen_check : Bool) (stopping : ℕ → Bool) (tries : ℕ → Try) where
  -- Why the loop ends as it does in turn `j`: a stop was asked for when the turn began, or during it; an
  -- adapter that is usable is not tested, cannot be, or hears a frame; one that is tested hears
  -- none; or it raises.
  abbrev pub IsWhy : ℕ → End → Type 0
  IsWhy j stopped = (stopping j ≡ true) ⊎ (stopping (j + 1) ≡ true)
  IsWhy j ready =
      ((tries j).usable ≡ ok true)
      × ((no_listen_check ≡ true) ⊎ ((tries j).frames ≢ some 0))
      × (stopping (j + 1) ≡ false)
  IsWhy j deaf =
      ((tries j).usable ≡ ok true)
      × (no_listen_check ≡ false)
      × ((tries j).frames ≡ some 0)
      × (stopping (j + 1) ≡ false)
  IsWhy j (raised e) = (tries j).usable ≡ err e

  -- An end in a turn after `t`, `before` reloads: no more than two in all, two of them if the radio is
  -- left deaf, and sleeps of 5 to 60 seconds.
  pub record IsEnd (t before : ℕ) (e : End) (done : List Action) : Type 0 where
    pub why : IsWhy (t + length done) e
    pub few : before + reloads_in done ≤ 2
    pub tried : e ≡ deaf → before + reloads_in done ≡ 2
    pub patient : All IsPatient done

  abbrev Ends : ℕ → ℕ → Option (End × List Action) → Type 0
  Ends t before out =
      (e : End) × (done : List Action) × (out ≡ some (e, done)) × IsEnd t before e done

  slept :
      (n t before : ℕ) (out : Option (End × List Action))
      → (5 ≤ n) × (n ≤ 60)
      → Ends (t + 1) before out
      → Ends t before (after_action (sleep n) out)
  slept n t before out h (e, done, same, w) = (
    e,
    sleep n ∷ done,
    ap (after_action (sleep n)) same,
    record {
      why = subst (λ j. IsWhy j e) (omega arith) w.why;
      few = w.few;
      tried = w.tried;
      patient = (h, w.patient);
    },
  )

  reloaded :
      (n t before : ℕ) (out : Option (End × List Action))
      → Ends (t + 1) (before + 1) out
      → Ends t before (after_action (reload n) out)
  reloaded n t before out (e, done, same, w) = (
    e,
    reload n ∷ done,
    ap (after_action (reload n)) same,
    record {
      why = subst (λ j. IsWhy j e) (omega arith) w.why;
      few = omega (arith, w.few);
      tried = λ h. omega (arith, w.tried h);
      patient = (tt, w.patient);
    },
  )

  -- an end in this turn
  Ends-now :
      (t before : ℕ) (e : End)
      → IsWhy t e
      → before ≤ 2
      → (e ≡ deaf → before ≡ 2)
      → Ends t before (some (e, []))
  Ends-now t before e why few tried = (
    e,
    [],
    refl,
    record {
      why = subst (λ j. IsWhy j e) (omega arith) why;
      few = omega arith;
      tried = λ h. omega (arith, tried h);
      patient = tt;
    },
  )

  left :
      (t reloads : ℕ) (e : End)
      → reloads ≤ 2
      → (stopping (t + 1) ≡ false → IsWhy t e)
      → (e ≡ deaf → reloads ≡ 2)
      → Ends t reloads (some (if stopping (t + 1) then stopped else e, []))
  left t reloads e few why tried = elim (Bool-cases (stopping (t + 1))) [
    | inl stop ↦ rw stop (Ends-now t reloads stopped (inr stop) few (λ h. cc))
    | inr run ↦ rw run (Ends-now t reloads e (why run) few tried)
  ]

  hears-why :
      (frames : Option ℕ)
      → (no_listen_check || is_not_false (radio_hears frames)) ≡ true
      → (no_listen_check ≡ true) ⊎ (frames ≢ some 0)
  hears-why frames h = elim (Bool-cases no_listen_check) [
    | inl skipped ↦ inl skipped
    | inr tested ↦ inr (λ e. absurd (cc (rw (tested, e) at h)))
  ]

  silent-why :
      (frames : Option ℕ)
      → (no_listen_check || is_not_false (radio_hears frames)) ≡ false
      → (no_listen_check ≡ false) × (frames ≡ some 0)
  silent-why none h = absurd (ground arith)
  silent-why (some n) h = (ground arith, ap some (ground arith))

  -- what the turns after `t` come to, whatever the counts
  abbrev Rest : ℕ → ℕ → Type 0
  Rest t fuel =
      (attempt reloads k : ℕ)
      → reloads ≤ 2
      → k + (2 - reloads) < fuel
      → ((j : ℕ) → t + k ≤ j → (tries j).usable ≡ ok true)
      → Ends t reloads (bring_up_from no_listen_check stopping tries t attempt reloads fuel)

  module _ (fuel t attempt reloads k : ℕ) (few : reloads ≤ 2)
      (enough : k + (2 - reloads) < suc fuel)
      (up : (j : ℕ) → t + k ≤ j → (tries j).usable ≡ ok true) (next : Rest (t + 1) fuel) where
    unusable_turn :
        (tries t).usable ≡ ok false
        → Ends t reloads (
            after_action
              (sleep (delay (attempt + 1)))
              (bring_up_from no_listen_check stopping tries (t + 1) (attempt + 1) reloads fuel))
    unusable_turn h =
        let waits : 0 < k = elim (Bool-cases (nat_beq k 0)) [
          | inl now ↦ let up_now : (tries t).usable ≡ ok true = up t (ground arith) in absurd (cc)
          | inr ahead ↦ ground arith
        ] in
        slept (delay (attempt + 1)) t reloads _ (omega arith, omega arith)
          (next (attempt + 1) reloads (k - 1) few (omega (arith, enough, waits))
            (λ j h. up j (omega (arith, h, waits))))

    turn_lem :
        Ends t reloads (bring_up_from no_listen_check stopping tries t attempt reloads (suc fuel))
    unfolding bring_up_from
    turn_lem = elim (Bool-cases (stopping t)) [
      | inl stop ↦ rw (stop, bring_up_from) (Ends-now t reloads stopped (inl stop) few (λ h. cc))
      | inr run ↦ rw (run, bring_up_from) (go (tries t).usable refl)
    ]
      where
        go :
            (u : Result Bool)
            → (tries t).usable ≡ u
            → Ends t reloads (elim (tries t).usable as (λ x. Option (End × List Action)) [
              | err e ↦ some (raised e, [])
              | ok usable ↦
                  if not usable
                  then after_action (sleep (delay (attempt + 1))) (
                      bring_up_from no_listen_check stopping tries
                        (t + 1)
                        (attempt + 1)
                        reloads
                        fuel)
                  else if no_listen_check || is_not_false (radio_hears (tries t).frames)
                  then leave no_listen_check stopping tries t ready
                  else if leb max_deaf_reloads reloads
                  then leave no_listen_check stopping tries t deaf
                  else after_action (reload (reloads + 1)) (
                      bring_up_from no_listen_check stopping tries
                        (t + 1)
                        attempt
                        (reloads + 1)
                        fuel)
            ])
        go (err e) h = rw h (Ends-now t reloads (raised e) h few (λ h. cc))
        go (ok false) h = rw h (unusable_turn h)
        go (ok true) h =
            rw h
              (elim (Bool-cases (no_listen_check || is_not_false (radio_hears (tries t).frames))) [
                | inl hears ↦ rw hears (
                    left t reloads ready few (λ on. (h, hears-why (tries t).frames hears, on))
                      (λ h. cc))
                | inr silent ↦ elim (Bool-cases (leb 2 reloads)) [
                  | inl enough_reloads ↦
                      let (tested, nothing) = silent-why (tries t).frames silent in
                      rw (silent, enough_reloads)
                        (left t reloads deaf few (λ on. (h, tested, nothing, on))
                          (λ h. ground arith))
                  | inr more ↦
                      let fewer : reloads + 1 ≤ 2 = ground arith in
                      rw (silent, more)
                        (reloaded (reloads + 1) t reloads _ (
                          next attempt (reloads + 1) (k - 1) fewer (omega (arith, enough, fewer))
                            (λ j h. up j (omega (arith, h)))))
                ]
              ])

  bring_up_from_lem : (fuel t : ℕ) → Rest t fuel
  bring_up_from_lem zero t attempt reloads k few enough up = absurd (omega arith)
  bring_up_from_lem (suc fuel) t attempt reloads k few enough up =
      turn_lem fuel t attempt reloads k few enough up (bring_up_from_lem fuel (t + 1))

  -- If the adapter is usable from turn `k` on, the loop that brings it up ends within three turns more:
  -- by a stop that is asked for in its last turn; by an exception that the checks of the adapter raise in
  -- it; with a radio that is usable in it and is not tested, cannot be, or hears a frame; or with one
  -- that is tested and hears none. It reloads the driver twice at most, and twice before it leaves
  -- the radio deaf; each sleep takes 5 to 60 seconds, and each turn but the last is a sleep or a reload.
  pub bring_up_lem :
      (k fuel : ℕ)
      → ((j : ℕ) → k ≤ j → (tries j).usable ≡ ok true)
      → k + 2 < fuel
      → (e : End) × (done : List Action) × (bring_up no_listen_check stopping tries fuel
          ≡ some (e, done))
        × IsEnd 0 0 e done
  unfolding bring_up
  bring_up_lem k fuel up enough =
      bring_up_from_lem fuel 0 0 0 k (omega arith) (omega (arith, enough))
        (λ j h. up j (omega (arith, h)))
