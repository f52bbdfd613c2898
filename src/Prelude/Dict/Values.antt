-- ===== src/Prelude/Dict/Values.antt =====
-- A property of all values of a dictionary.
use mathlib.Core.Path.{◌≡◌, subst}
use mathlib.Core.Option.{some}
use mathlib.Core.Logic.{inl, inr}
use mathlib.Core.List.{[], ◌∷◌}
use wifipi.Prelude.Tests.{Bool-cases}
use wifipi.Prelude.Equality.{Eq, ◌==◌}
use wifipi.Prelude.Dict.Defs.{Dict, get, set, remove}

module _ {ℓ κ} {K : Type ℓ} {V : Type κ} (Q : V → Type 0) where
  abbrev pub AllValues : Dict K V → Type 0
  AllValues [] = Unit
  AllValues ((k, v) ∷ d) = Q v × AllValues d

  module _ ⦃e : Eq K⦄ where
    pub AllValues-remove : (k : K) (d : Dict K V) → AllValues d → AllValues (remove k d)
    unfolding remove
    AllValues-remove k [] h = tt
    AllValues-remove k ((j, w) ∷ d) h = elim (Bool-cases (j == k)) [
      | inl same ↦ rw (same, remove) (AllValues-remove k d h.1)
      | inr other ↦ rw (other, remove) (h.0, AllValues-remove k d h.1)
    ]

    pub AllValues-set : (k : K) (v : V) (d : Dict K V) → Q v → AllValues d → AllValues (set k v d)
    unfolding set
    AllValues-set k v [] q h = (q, tt)
    AllValues-set k v ((j, w) ∷ d) q h = elim (Bool-cases (j == k)) [
      | inl same ↦ rw (same, set) (q, h.1)
      | inr other ↦ rw (other, set) (h.0, AllValues-set k v d q h.1)
    ]

    pub AllValues-get : (k : K) (v : V) (d : Dict K V) → get d k ≡ some v → AllValues d → Q v
    unfolding get
    AllValues-get k v [] g h = cc
    AllValues-get k v ((j, w) ∷ d) g h = elim (Bool-cases (j == k)) [
      | inl same ↦ subst Q (cc (rw (same, get) at g)) h.0
      | inr other ↦ AllValues-get k v d (rw (other, get) at g) h.1
    ]
