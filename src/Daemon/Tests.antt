-- ===== src/Daemon/Tests.antt =====
-- An adapter that comes up at the second turn and stays deaf.
use wifipi.Prelude.Result.{ok}
use wifipi.Prelude.{refl, ◌≤◌, leb, Bool, arith, List, ℕ, ◌≡◌, some, true, false, ◌∷◌, []}
use wifipi.Daemon.{Try, End, deaf, Action, sleep, reload, bring_up, bring_up_from}
use wifipi.Daemon.Ends.{IsEnd, bring_up_lem}

abbrev tries : ℕ → Try
tries n = record { usable = ok (leb 1 n); frames = some 0 }

abbrev never : ℕ → Bool
never n = false

tries_up : (j : ℕ) → 1 ≤ j → (tries j).usable ≡ ok true
tries_up j h = ground arith

deaf_run : bring_up false never tries 4 ≡ some (deaf, sleep 5 ∷ reload 1 ∷ reload 2 ∷ [])
unfolding bring_up bring_up_from
deaf_run = refl

bring_up_lem_example :
    (e : End) × (done : List Action) × (bring_up false never tries 4 ≡ some (e, done))
    × IsEnd false never tries 0 0 e done
bring_up_lem_example = bring_up_lem false never tries 1 4 tries_up (omega arith)
