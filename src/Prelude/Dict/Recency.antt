-- ===== src/Prelude/Dict/Recency.antt =====
-- How far an entry is from the end of a dictionary, and so how long it is safe from eviction.
use mathlib.Core.Logic.{◌≢◌}
use wifipi.Prelude.Tests.{if◌then◌else◌}
use wifipi.Prelude.Lists.{length, length-append}
use wifipi.Prelude.Equality.{Eq, ◌==◌}
use wifipi.Prelude.Dict.Defs.{Dict, get, remove}
use wifipi.Prelude.Dict.Evict.{evict}
use wifipi.Prelude.Dict.Laws.{length-remove-le, get-remove}
use mathlib.Core.Path.{◌≡◌}
use mathlib.Core.Option.{none, some}
use mathlib.Core.List.{[], ◌∷◌, ◌++◌}
use native.Mathlib.Omega.{arith}
use Prim.Native.Nat.{ℕ, ◌+◌, ◌≤◌, ◌<◌}

module _ {ℓ κ} {K : Type ℓ} {V : Type κ} ⦃e : Eq K⦄ where
  -- the number of entries behind the key's
  pub behind : K → Dict K V → ℕ
  behind k [] = 0
  behind k ((j, w) ∷ d) = let rest = behind k d in if j == k then length d else rest

  pub behind-remove : (k j : K) (d : Dict K V) → k ≢ j → behind k (remove j d) ≤ behind k d
  unfolding behind remove
  behind-remove k j [] h = omega arith
  behind-remove k j ((i, w) ∷ d) h =
      ground (arith, e.beq_iff i k, e.beq_iff i j, behind-remove k j d h, length-remove-le j d)

  behind-append :
      (k j : K) (v w : V) (d : Dict K V)
      → get d k ≡ some v
      → behind k (d ++ (j, w) ∷ []) ≡ behind k d + 1
  unfolding behind get
  behind-append k j v w [] h = cc
  behind-append k j v w ((i, x) ∷ d) h =
      ground (arith, behind-append k j v w d, length-append d ((j, w) ∷ []))

  -- A use of another key puts one entry more behind this one, at most.
  pub behind-touch :
      (k j : K) (v w : V) (d : Dict K V)
      → k ≢ j
      → get d k ≡ some v
      → behind k (remove j d ++ (j, w) ∷ []) ≤ behind k d + 1
  behind-touch k j v w d h g =
      let kept : get (remove j d) k ≡ some v = ground (arith, get-remove j k d, e.beq_iff j k) in
      omega (arith, behind-append k j v w (remove j d) kept, behind-remove k j d h)

  pub behind-evict :
      (limit : ℕ) (k : K) (v : V) (d : Dict K V)
      → get d k ≡ some v
      → behind k d < limit
      → (get (evict limit d) k ≡ some v) × (behind k (evict limit d) ≡ behind k d)
  unfolding behind get evict
  behind-evict limit k v [] g h = cc
  behind-evict limit k v ((i, x) ∷ d) g h = ground (arith, behind-evict limit k v d)

  pub behind-touch_self :
      (k : K) (v : V) (d : Dict K V) → get d k ≡ none → behind k (d ++ (k, v) ∷ []) ≡ 0
  unfolding behind get
  behind-touch_self k v [] h = ground (arith, e.beq_iff k k)
  behind-touch_self k v ((i, x) ∷ d) h = ground (arith, behind-touch_self k v d)
