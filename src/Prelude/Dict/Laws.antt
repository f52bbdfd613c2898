-- ===== src/Prelude/Dict/Laws.antt =====
-- What can be read after a write, and the sizes.
use Prim.Native.Nat.{◌≤◌, ◌+◌}
use mathlib.Core.Path.{◌≡◌, refl}
use mathlib.Core.Option.{none, some}
use mathlib.Core.List.{[], ◌∷◌, ◌++◌}
use native.Mathlib.Omega.{arith}
use wifipi.Prelude.Tests.{if◌then◌else◌}
use wifipi.Prelude.Lists.{length}
use wifipi.Prelude.Equality.{Eq, ◌==◌}
use wifipi.Prelude.Dict.Defs.{Dict, move_to_end, get, set, remove, Distinct}

module _ {ℓ κ} {K : Type ℓ} {V : Type κ} ⦃e : Eq K⦄ where
  pub get-set :
      (k j : K) (v : V) (d : Dict K V) → get (set k v d) j ≡ (if k == j then some v else get d j)
  unfolding get set
  get-set k j v [] = refl
  get-set k j v ((i, w) ∷ d) =
      ground (arith, e.beq_iff k j, e.beq_iff i k, e.beq_iff i j, get-set k j v d)

  pub get-remove :
      (k j : K) (d : Dict K V) → get (remove k d) j ≡ (if k == j then none else get d j)
  unfolding get remove
  get-remove k j [] = ground arith
  get-remove k j ((i, w) ∷ d) =
      ground (arith, e.beq_iff k j, e.beq_iff i k, e.beq_iff i j, get-remove k j d)

  pub get-append :
      (k j : K) (v : V) (d : Dict K V)
      → get d k ≡ none
      → get (d ++ (k, v) ∷ []) j ≡ (if k == j then some v else get d j)
  unfolding get
  get-append k j v [] h = refl
  get-append k j v ((i, w) ∷ d) h =
      ground (arith, e.beq_iff k j, e.beq_iff i k, e.beq_iff i j, get-append k j v d)

  pub set_absent : (k : K) (v : V) (d : Dict K V) → get d k ≡ none → set k v d ≡ d ++ (k, v) ∷ []
  unfolding get set
  set_absent k v [] h = refl
  set_absent k v ((i, w) ∷ d) h = ground (arith, set_absent k v d)

  pub remove_absent : (k : K) (d : Dict K V) → get d k ≡ none → remove k d ≡ d
  unfolding get remove
  remove_absent k [] h = refl
  remove_absent k ((i, w) ∷ d) h = ground (arith, remove_absent k d)

  pub get-remove_self : (k : K) (d : Dict K V) → get (remove k d) k ≡ none
  get-remove_self k d = ground (arith, get-remove k k d, e.beq_iff k k)

  pub get-set_self : (k : K) (v : V) (d : Dict K V) → get (set k v d) k ≡ some v
  get-set_self k v d = ground (arith, get-set k k v d, e.beq_iff k k)

  pub Distinct-remove : (k : K) (d : Dict K V) → Distinct d → Distinct (remove k d)
  unfolding remove
  Distinct-remove k [] h = tt
  Distinct-remove k ((i, w) ∷ d) h = ground (arith, get-remove k i d, Distinct-remove k d h.1)

  pub Distinct-set : (k : K) (v : V) (d : Dict K V) → Distinct d → Distinct (set k v d)
  unfolding set get
  Distinct-set k v [] h = (refl, tt)
  Distinct-set k v ((i, w) ∷ d) h =
      ground (arith, get-set k i v d, e.beq_iff k i, e.beq_iff i k, Distinct-set k v d h.1)

  pub length-set_absent :
      (k : K) (v : V) (d : Dict K V) → get d k ≡ none → length (set k v d) ≡ length d + 1
  unfolding get set
  length-set_absent k v [] h = refl
  length-set_absent k v ((i, w) ∷ d) h = ground (arith, length-set_absent k v d)

  pub length-set_present :
      (k : K) (v w : V) (d : Dict K V) → get d k ≡ some w → length (set k v d) ≡ length d
  unfolding get set
  length-set_present k v w [] h = cc
  length-set_present k v w ((i, x) ∷ d) h = ground (arith, length-set_present k v w d)

  pub length-remove :
      (k : K) (v : V) (d : Dict K V)
      → Distinct d
      → get d k ≡ some v
      → length (remove k d) + 1 ≡ length d
  unfolding get remove
  length-remove k v [] u h = cc
  length-remove k v ((i, w) ∷ d) u h =
      ground (arith, e.beq_iff i k, length-remove k v d u.1, remove_absent k d)

  pub length-remove-le : (k : K) (d : Dict K V) → length (remove k d) ≤ length d
  unfolding remove
  length-remove-le k [] = omega arith
  length-remove-le k ((i, w) ∷ d) = ground (arith, length-remove-le k d)

  remove-set : (k : K) (v : V) (d : Dict K V) → remove k (set k v d) ≡ remove k d
  unfolding remove set
  remove-set k v [] = ground (arith, e.beq_iff k k)
  remove-set k v ((i, w) ∷ d) = ground (arith, e.beq_iff i k, remove-set k v d)

  -- Written anew and moved to the end: the most recent entry, and no other entry with the key.
  pub move_to_end-set :
      (k : K) (v : V) (d : Dict K V) → move_to_end k (set k v d) ≡ remove k d ++ (k, v) ∷ []
  unfolding move_to_end
  move_to_end-set k v d = rw (get-set_self k v d, move_to_end, remove-set k v d)

  pub move_to_end_lem :
      (k : K) (v : V) (d : Dict K V)
      → get d k ≡ some v
      → move_to_end k d ≡ remove k d ++ (k, v) ∷ []
  unfolding move_to_end
  move_to_end_lem k v d h = rw (h, move_to_end)

  pub Distinct-append :
      (k : K) (v : V) (d : Dict K V) → Distinct d → get d k ≡ none → Distinct (d ++ (k, v) ∷ [])
  unfolding get
  Distinct-append k v [] u h = (refl, tt)
  Distinct-append k v ((i, w) ∷ d) u h =
      ground (arith, e.beq_iff i k, e.beq_iff k i, get-append k i v d, Distinct-append k v d u.1)

  -- The entry most recently used stands last, and every other key reads as before.
  pub Distinct-touch :
      (k : K) (v : V) (d : Dict K V) → Distinct d → Distinct (remove k d ++ (k, v) ∷ [])
  Distinct-touch k v d u =
      Distinct-append k v (remove k d) (Distinct-remove k d u) (get-remove_self k d)

  pub get-touch :
      (k j : K) (v : V) (d : Dict K V)
      → get (remove k d ++ (k, v) ∷ []) j ≡ (if k == j then some v else get d j)
  get-touch k j v d =
      ground (arith, get-append k j v (remove k d), get-remove_self k d, get-remove k j d)
