-- ===== src/Daemon.antt =====
-- bin/beachedmesh: how the daemon brings up its adapter, and a radio that hears nothing.
pub mod Ends
pub mod Main
mod Tests
use Prim.Native.Nat.{min}
use wifipi.Prelude.Result.{Error, Result, ok, err}
use wifipi.Prelude.{
  leb, ◌||◌, ◌*◌, if◌then◌else◌, ◌+◌, nat_beq, not, List, ℕ, Option, Bool, some, none, true, zero,
  suc, ◌∷◌, [],
}

abbrev pub max_deaf_reloads : ℕ
max_deaf_reloads = 2

-- What a turn of the loop meets: whether the interface is there and passes `verify_and_configure`, or the
-- exception that this raises, and the frames that `recover.frames_heard` counts, none if it cannot listen.
pub record Try : Type 0 where
  pub usable : Result Bool
  pub frames : Option ℕ

-- `radio_hears`
abbrev pub radio_hears : Option ℕ → Option Bool
radio_hears none = none
radio_hears (some n) = some (not (nat_beq n 0))

-- `is not False`
abbrev pub is_not_false : Option Bool → Bool
is_not_false none = true
is_not_false (some b) = b

-- How the loop ends: by a stop, with a radio that is not known to be deaf, or that is, or by an exception.
pub data End : Type 0 where
  stopped ready deaf : End
  raised : Error → End

-- What a turn does before the next: `recover_deaf_radio` with its number, or a sleep of some seconds.
pub data Action : Type 0 where
  reload sleep : ℕ → Action

-- the seconds before the next try
abbrev pub delay : ℕ → ℕ
delay attempt = min 60 (5 * attempt)

abbrev pub after_action : Action → Option (End × List Action) → Option (End × List Action)
after_action a none = none
after_action a (some (e, done)) = some (e, a ∷ done)

module _ (no_listen_check : Bool) (stopping : ℕ → Bool) (tries : ℕ → Try) where
  -- a `break` at turn `t`, and the test of `stopping` behind the loop
  abbrev pub leave : ℕ → End → Option (End × List Action)
  leave t e = some (if stopping (t + 1) then stopped else e, [])

  -- The loop from turn `t` on, with `attempt` and `reloads`; `stopping t` is whether a stop was asked for
  -- when the turn begins. Without fuel there is no answer.
  unfoldable pub bring_up_from : ℕ → ℕ → ℕ → ℕ → Option (End × List Action)
  bring_up_from t attempt reloads zero = none
  bring_up_from t attempt reloads (suc fuel) =
      let again =
        after_action (reload (reloads + 1)) (bring_up_from (t + 1) attempt (reloads + 1) fuel) in
      let later =
        after_action (sleep (delay (attempt + 1)))
          (bring_up_from (t + 1) (attempt + 1) reloads fuel) in
      if stopping t then some (stopped, []) else elim (tries t).usable [
        | err e ↦ some (raised e, [])
        | ok usable ↦
            if not usable
            then later
            else if no_listen_check || is_not_false (radio_hears (tries t).frames)
            then leave t ready
            else if leb max_deaf_reloads reloads
            then leave t deaf
            else again
      ]

  unfoldable pub bring_up : ℕ → Option (End × List Action)
  bring_up fuel = bring_up_from 0 0 0 fuel
