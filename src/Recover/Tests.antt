-- ===== src/Recover/Tests.antt =====
-- An interface that is back at the third turn of the loop, and air with a frame at each turn.
use wifipi.Prelude.Time.{Micros}
use wifipi.Prelude.{◌+◌, some, ◌*◌, ◌≡◌, leb, ℕ, Bool, arith, list_eq}
use wifipi.Recover.{Round, frame, wait_for_iface, frames_heard, reappear_timeout, listen_seconds}
use wifipi.Recover.Ends.{IsSlept, IsAnswer, wait_for_iface_lem, IsCount, frames_heard_lem}

abbrev clock : ℕ → Micros
clock n = n * 500_000

abbrev back : ℕ → Bool
back n = leb 3 n

clock-IsSlept : IsSlept clock
clock-IsSlept = record { start = omega arith; turn = λ n. omega arith }

wait_for_iface_lem_example :
    (b : Bool) × (wait_for_iface clock back reappear_timeout 41 ≡ some b)
    × IsAnswer clock back (clock 0 + reappear_timeout) b
wait_for_iface_lem_example =
    wait_for_iface_lem clock clock-IsSlept back reappear_timeout 40 (omega arith)

abbrev busy : ℕ → Round
busy n = frame

frames_heard_lem_example :
    IsCount clock busy (clock 0 + listen_seconds) 1 0 (frames_heard clock busy listen_seconds 6)
frames_heard_lem_example = frames_heard_lem clock busy listen_seconds 5 (omega arith)
