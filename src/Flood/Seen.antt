-- ===== src/Flood/Seen.antt =====
-- `SeenCache`: the identities of the packets that were handled lately.
pub mod Laws
pub mod Memory
use wifipi.Prelude.{
  ℕ, ◌+◌, ◌≤◌, ◌≡◌, Bool, true, false, none, some, [], length, ltb, Eq, if◌then◌else◌,
}
use wifipi.Prelude.Dict.{Dict, get, set, remove, move_to_end, evict}
use wifipi.Prelude.Time.{Micros, seconds}

pub record SeenCache {ℓ} (K : Type ℓ) : Type ℓ where
  pub capacity : ℕ
  pub ttl : Micros
  pub entries : Dict K Micros

abbrev pub empty {ℓ} : {K : Type ℓ} → SeenCache K
empty = record { capacity = 4096; ttl = seconds 600; entries = [] }

module _ {ℓ} {K : Type ℓ} ⦃e : Eq K⦄ where
  -- `now` is the reading of `time.monotonic`, which is made if the key is there
  unfoldable pub seen : Micros → K → SeenCache K → Bool × SeenCache K
  seen now k c = elim (get c.entries k) [
    | none ↦ (false, c)
    | some ts ↦
        if ltb (ts + c.ttl) now
        then (false, record c { entries = remove k c.entries })
        else (true, record c { entries = move_to_end k c.entries })
  ]

  unfoldable pub add : Micros → K → SeenCache K → SeenCache K
  add now k c = record c { entries = evict c.capacity (move_to_end k (set k now c.entries)) }
