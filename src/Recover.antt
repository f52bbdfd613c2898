-- ===== src/Recover.antt =====
-- beachedmesh/recover.py: the loops that wait for the interface and count the frames it hears.
pub mod Ends
mod Tests
use wifipi.Prelude.Time.{seconds, Micros}
use wifipi.Prelude.{
  false, true, zero, some, leb, ltb, if◌then◌else◌, suc, ◌+◌, none, Option, Bool, ℕ, list_eq,
}

-- `LISTEN_SECONDS` and `REAPPEAR_TIMEOUT`
abbrev pub listen_seconds : Micros
listen_seconds = seconds 3

abbrev pub reappear_timeout : Micros
reappear_timeout = seconds 20

-- The loop of `wait_for_iface` from its turn `n` on: `clock n` is the reading of the turn, and `there n`
-- whether the path exists then. Without fuel there is no answer.
unfoldable pub wait_from : (ℕ → Micros) → (ℕ → Bool) → Micros → ℕ → ℕ → Option Bool
wait_from clock there deadline n zero = none
wait_from clock there deadline n (suc fuel) =
    let rest = wait_from clock there deadline (n + 1) fuel in
    if ltb (clock n) deadline then (if there n then some true else rest) else some false

-- `wait_for_iface`; `clock 0` is the reading for the deadline
unfoldable pub wait_for_iface : (ℕ → Micros) → (ℕ → Bool) → Micros → ℕ → Option Bool
wait_for_iface clock there timeout fuel = wait_from clock there (clock 0 + timeout) 1 fuel

-- What a turn of the loop of `frames_heard` meets: `select` comes back with nothing, or `recv` gives a
-- frame, an empty one, or an `OSError`.
pub data Round : Type 0 where
  quiet frame hollow failed : Round

-- the loop of `frames_heard` from its turn `n` on
unfoldable pub count_from : (ℕ → Micros) → (ℕ → Round) → Micros → ℕ → ℕ → ℕ → Option ℕ
count_from clock air deadline n frames zero = none
count_from clock air deadline n frames (suc fuel) =
    let same = count_from clock air deadline (n + 1) frames fuel in
    let more = count_from clock air deadline (n + 1) (frames + 1) fuel in
    if leb deadline (clock n)
    then some frames
    else elim (air n) [ quiet ↦ same | frame ↦ more | hollow ↦ same | failed ↦ some frames ]

-- `frames_heard` on a socket that could be opened
unfoldable pub frames_heard : (ℕ → Micros) → (ℕ → Round) → Micros → ℕ → Option ℕ
frames_heard clock air duration fuel = count_from clock air (clock 0 + duration) 1 0 fuel
