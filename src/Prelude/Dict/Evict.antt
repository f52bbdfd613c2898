-- ===== src/Prelude/Dict/Evict.antt =====
-- `while len(d) > capacity: d.popitem(last=False)`: the oldest entries go first.
use Prim.Native.Nat.{ℕ, suc, ◌≤◌, ◌<◌, min}
use mathlib.Core.Path.{◌≡◌, refl}
use mathlib.Core.Option.{none, some}
use mathlib.Core.List.{[], ◌∷◌, ◌++◌}
use native.Mathlib.Omega.{arith}
use wifipi.Prelude.Tests.{if◌then◌else◌, ltb}
use wifipi.Prelude.Lists.{length}
use wifipi.Prelude.Equality.{Eq}
use wifipi.Prelude.Dict.Defs.{Dict, get, Distinct}
use wifipi.Prelude.Dict.Laws.{get-append}

module _ {ℓ κ} {K : Type ℓ} {V : Type κ} where
  unfoldable pub evict : ℕ → Dict K V → Dict K V
  evict limit [] = []
  evict limit (x ∷ d) =
      let rest = evict limit d in if ltb limit (suc (length d)) then rest else x ∷ d

  pub length-evict : (limit : ℕ) (d : Dict K V) → length (evict limit d) ≡ min limit (length d)
  unfolding evict
  length-evict limit [] = omega arith
  length-evict limit (x ∷ d) = ground (arith, length-evict limit d)

  pub evict_of_length-le : (limit : ℕ) (d : Dict K V) → length d ≤ limit → evict limit d ≡ d
  unfolding evict
  evict_of_length-le limit [] h = refl
  evict_of_length-le limit (x ∷ d) h = ground arith

module _ {ℓ κ} {K : Type ℓ} {V : Type κ} ⦃e : Eq K⦄ where
  pub Distinct-evict : (limit : ℕ) (d : Dict K V) → Distinct d → Distinct (evict limit d)
  unfolding evict
  Distinct-evict limit [] h = tt
  Distinct-evict limit (x ∷ d) h = ground (arith, Distinct-evict limit d h.1)

  -- What survives is what was stored.
  pub get-evict :
      (limit : ℕ) (k : K) (v : V) (d : Dict K V)
      → Distinct d
      → get (evict limit d) k ≡ some v
      → get d k ≡ some v
  unfolding get evict
  get-evict limit k v [] u h = h
  get-evict limit k v ((i, w) ∷ d) u h = ground (arith, e.beq_iff i k, get-evict limit k v d u.1)

  -- The newest entry survives.
  pub get-evict_last :
      (limit : ℕ) (k : K) (v : V) (d : Dict K V)
      → 0 < limit
      → get d k ≡ none
      → get (evict limit (d ++ (k, v) ∷ [])) k ≡ some v
  unfolding get evict
  get-evict_last limit k v [] c h = ground (arith, e.beq_iff k k)
  get-evict_last limit k v ((i, w) ∷ d) c h =
      ground (arith, e.beq_iff k k, get-append k k v d, get-evict_last limit k v d)
