-- ===== src/Prelude/Sort.antt =====
-- `sorted`: a stable sort by a Boolean comparison.
use mathlib.Core.List.Perm
use mathlib.Core.List.{List, [], ◌∷◌, ◌++◌, Perm}
use mathlib.Core.Path.{◌≡◌, refl, ap, sym, ◌∙◌}
use mathlib.Core.Bool.{Bool, true, false, not}
use mathlib.Core.Logic.{inl, inr}
use wifipi.Prelude.Tests.{if◌then◌else◌, Bool-cases}
use wifipi.Prelude.Lists.{All}

module _ {ℓ} {A : Type ℓ} where
  -- the elements that pass a test
  unfoldable pub filter : (A → Bool) → List A → List A
  filter p [] = []
  filter p (x ∷ xs) = let rest = filter p xs in if p x then x ∷ rest else rest

module _ {ℓ} {A : Type ℓ} (le : A → A → Bool) where
  unfoldable pub insert : A → List A → List A
  insert x [] = x ∷ []
  insert x (y ∷ ys) = let rest = insert x ys in if le x y then x ∷ y ∷ ys else y ∷ rest

  unfoldable pub sort : List A → List A
  sort [] = []
  sort (x ∷ xs) = insert x (sort xs)

  abbrev pub IsSorted : List A → Type 0
  IsSorted [] = Unit
  IsSorted (x ∷ xs) = All (λ y. le x y ≡ true) xs × IsSorted xs

  insert-perm : (x : A) (l : List A) → Perm (insert x l) (x ∷ l)
  unfolding insert
  insert-perm x [] = Perm.rfl
  insert-perm x (y ∷ ys) = elim (Bool-cases (le x y)) [
    | inl before ↦ rw before Perm.rfl
    | inr after ↦ rw after (Perm.trans (Perm.cons y (insert-perm x ys)) (Perm.swap x y ys))
  ]

  pub sort-perm : (l : List A) → Perm (sort l) l
  unfolding sort
  sort-perm [] = Perm.rfl
  sort-perm (x ∷ xs) = Perm.trans (insert-perm x (sort xs)) (Perm.cons x (sort-perm xs))

  All-insert : (P : A → Type 0) (x : A) (l : List A) → P x → All P l → All P (insert x l)
  unfolding insert
  All-insert P x [] px a = (px, tt)
  All-insert P x (y ∷ ys) px a = elim (Bool-cases (le x y)) [
    | inl before ↦ rw before (px, a)
    | inr after ↦ rw after (a.0, All-insert P x ys px a.1)
  ]

  module _ (total : (x y : A) → le x y ≡ false → le y x ≡ true)
      (transitive : (x y z : A) → le x y ≡ true → le y z ≡ true → le x z ≡ true) where
    All-le :
        (x y : A) (l : List A)
        → le x y ≡ true
        → All (λ z. le y z ≡ true) l
        → All (λ z. le x z ≡ true) l
    All-le x y [] h a = tt
    All-le x y (z ∷ l) h a = (transitive x y z h a.0, All-le x y l h a.1)

    insert-IsSorted : (x : A) (l : List A) → IsSorted l → IsSorted (insert x l)
    unfolding insert
    insert-IsSorted x [] s = (tt, tt)
    insert-IsSorted x (y ∷ ys) s = elim (Bool-cases (le x y)) [
      | inl before ↦ rw before ((before, All-le x y ys before s.0), s)
      | inr after ↦
          rw after
            (All-insert (λ z. le y z ≡ true) x ys (total x y after) s.0, insert-IsSorted x ys s.1)
    ]

    pub sort-IsSorted : (l : List A) → IsSorted (sort l)
    unfolding sort
    sort-IsSorted [] = tt
    sort-IsSorted (x ∷ xs) = insert-IsSorted x (sort xs) (sort-IsSorted xs)

  -- Elements that compare both ways keep their order.
  module _ (p : A → Bool) (tied : (x y : A) → p x ≡ true → p y ≡ true → le x y ≡ true) where
    filter-insert : (x : A) (l : List A) → filter p (insert x l) ≡ filter p (x ∷ l)
    unfolding filter insert
    filter-insert x [] = refl
    filter-insert x (y ∷ ys) = elim (Bool-cases (le x y)) [
      | inl before ↦ rw before refl
      | inr after ↦ elim (Bool-cases (p y)) [
        | inl here ↦ elim (Bool-cases (p x)) [
          | inl both ↦ absurd (cc (tied x y both here, after))
          | inr only ↦ rw (after, here, filter-insert x ys, only) refl
        ]
        | inr gone ↦ rw (after, gone, filter-insert x ys) refl
      ]
    ]

    pub filter-sort : (l : List A) → filter p (sort l) ≡ filter p l
    unfolding filter sort
    filter-sort [] = refl
    filter-sort (x ∷ xs) =
        filter-insert x (sort xs) ∙ ap (λ l. if p x then x ∷ l else l) (filter-sort xs)

  -- A sorted list begins with the elements that pass a test which holds of all before one that passes.
  module _ (p : A → Bool) (downward : (x y : A) → le x y ≡ true → p x ≡ false → p y ≡ false) where
    none_after :
        (x : A) (l : List A)
        → p x ≡ false
        → All (λ y. le x y ≡ true) l
        → (filter p l ≡ []) × (filter (λ y. not (p y)) l ≡ l)
    unfolding filter
    none_after x [] h a = (refl, refl)
    none_after x (y ∷ l) h a =
        let out = downward x y a.0 h in
        let (nothing, all) = none_after x l h a.1 in
        (rw (out, nothing) refl, rw out (ap (◌∷◌ y) all))

    pub sorted_split : (l : List A) → IsSorted l → l ≡ filter p l ++ filter (λ y. not (p y)) l
    unfolding filter
    sorted_split [] s = refl
    sorted_split (x ∷ l) s = elim (Bool-cases (p x)) [
      | inl first ↦ rw first (ap (◌∷◌ x) (sorted_split l s.1))
      | inr later ↦
          let (nothing, all) = none_after x l later s.0 in
          rw (later, nothing) (ap (◌∷◌ x) (sym all))
    ]
