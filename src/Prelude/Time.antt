-- ===== src/Prelude/Time.antt =====
-- Clock readings and durations in whole microseconds.
use Prim.Native.Nat.{ℕ, ◌*◌}

abbrev pub Micros : Type 0
Micros = ℕ

abbrev pub seconds : ℕ → Micros
seconds n = n * 1_000_000

abbrev pub millis : ℕ → Micros
millis n = n * 1_000
