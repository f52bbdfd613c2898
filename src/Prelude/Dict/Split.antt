-- ===== src/Prelude/Dict/Split.antt =====
-- A dictionary cut in two at an entry.
use mathlib.Core.Path.{◌≡◌, refl}
use mathlib.Core.Option.{Option, none, some}
use mathlib.Core.List.{[], ◌∷◌, ◌++◌}
use native.Mathlib.Omega.{arith}
use wifipi.Prelude.Equality.{Eq}
use wifipi.Prelude.Dict.Defs.{Dict, get, remove, Distinct}
use wifipi.Prelude.Dict.Laws.{remove_absent}

abbrev or_else {ℓ} : {A : Type ℓ} → Option A → Option A → Option A
or_else none b = b
or_else (some a) b = some a

module _ {ℓ κ} {K : Type ℓ} {V : Type κ} ⦃e : Eq K⦄ where
  get-append_or :
      (k : K) (front back : Dict K V) → get (front ++ back) k ≡ or_else (get front k) (get back k)
  unfolding get
  get-append_or k [] back = refl
  get-append_or k ((i, w) ∷ front) back = ground (arith, get-append_or k front back)

  -- Distinct keys around an entry: its key stands nowhere else.
  pub Distinct-middle :
      (front : Dict K V) (k : K) (v : V) (back : Dict K V)
      → Distinct (front ++ (k, v) ∷ back)
      → (get front k ≡ none) × (get back k ≡ none) × Distinct (front ++ back)
  unfolding get
  Distinct-middle [] k v back u = (refl, u.0, u.1)
  Distinct-middle ((i, w) ∷ front) k v back u =
      let (a, b, c) = Distinct-middle front k v back u.1 in
      ground (
        arith,
        a,
        b,
        c,
        e.beq_iff i k,
        e.beq_iff k i,
        get-append_or i front ((k, v) ∷ back),
        get-append_or i front back,
      )

  pub remove-middle :
      (front : Dict K V) (k : K) (v : V) (back : Dict K V)
      → get front k ≡ none
      → get back k ≡ none
      → remove k (front ++ (k, v) ∷ back) ≡ front ++ back
  unfolding get remove
  remove-middle [] k v back a b = ground (arith, e.beq_iff k k, remove_absent k back)
  remove-middle ((i, w) ∷ front) k v back a b = ground (arith, remove-middle front k v back)

  pub get-middle :
      (front : Dict K V) (k : K) (v : V) (back : Dict K V)
      → get front k ≡ none
      → get (front ++ (k, v) ∷ back) k ≡ some v
  unfolding get
  get-middle [] k v back a = ground (arith, e.beq_iff k k)
  get-middle ((i, w) ∷ front) k v back a = ground (arith, get-middle front k v back)
