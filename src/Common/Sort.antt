-- ===== src/Common/Sort.antt =====
-- Python's `sorted`, which keeps the order of equal elements: a stable insertion sort for a test
-- `before`, that an element stands strictly before another.
use mathlib.Core.Path.{◌≡◌}
use mathlib.Core.Bool.{Bool, true, false}
use mathlib.Core.List.{List, [], ◌∷◌, Perm}
use mathlib.Core.List.Perm
use mathlib.Core.Logic.{inl, inr}
use interview_analytics_agen.Common.Tests.{if◌then◌else◌, Bool-cases}
use interview_analytics_agen.Common.Lists.{All}

module _ {A : Type 0} (before : A → A → Bool) where
  unfoldable pub insert : A → List A → List A
  insert x [] = x ∷ []
  insert x (y ∷ ys) = let rest = insert x ys in if before y x then y ∷ rest else x ∷ y ∷ ys

  unfoldable pub sort : List A → List A
  unfolding insert
  sort [] = []
  sort (x ∷ xs) = insert x (sort xs)

  -- No element stands before an earlier one.
  abbrev pub IsSorted : List A → Type 0
  IsSorted [] = Unit
  IsSorted (x ∷ xs) = All (λ z. before z x ≡ false) xs × IsSorted xs

  insert-perm : (x : A) (ys : List A) → Perm (insert x ys) (x ∷ ys)
  unfolding insert
  insert-perm x [] = Perm.rfl
  insert-perm x (y ∷ ys) = elim (Bool-cases (before y x)) [
    | inl e ↦ rw e (Perm.trans (Perm.cons y (insert-perm x ys)) (Perm.swap x y ys))
    | inr e ↦ rw e Perm.rfl
  ]

  pub sort-perm : (xs : List A) → Perm (sort xs) xs
  unfolding sort
  sort-perm [] = Perm.rfl
  sort-perm (x ∷ xs) = Perm.trans (insert-perm x (sort xs)) (Perm.cons x (sort-perm xs))

  insert-All : (P : A → Type 0) (x : A) (ys : List A) → P x → All P ys → All P (insert x ys)
  unfolding insert
  insert-All P x [] hx hys = (hx, hys)
  insert-All P x (y ∷ ys) hx hys = elim (Bool-cases (before y x)) [
    | inl e ↦ rw e (hys.0, insert-All P x ys hx hys.1)
    | inr e ↦ rw e (hx, hys)
  ]

  pub sort-All : (P : A → Type 0) (xs : List A) → All P xs → All P (sort xs)
  unfolding sort
  sort-All P [] h = h
  sort-All P (x ∷ xs) h = insert-All P x (sort xs) h.0 (sort-All P xs h.1)

  -- Where `before` is a strict weak order of the elements that satisfy a predicate.
  module _ (P : A → Type 0) (asymmetric : (x y : A) → before x y ≡ true → before y x ≡ false)
      (co_transitive : (x y z : A)
        → P x
        → P y
        → P z
        → before z y ≡ false
        → before y x ≡ false
        → before z x ≡ false) where
    never_before :
        (x y : A) (zs : List A)
        → P x
        → P y
        → All P zs
        → before y x ≡ false
        → All (λ z. before z y ≡ false) zs
        → All (λ z. before z x ≡ false) zs
    never_before x y [] hx hy hz e h = h
    never_before x y (z ∷ zs) hx hy hz e h =
        (co_transitive x y z hx hy hz.0 h.0 e, never_before x y zs hx hy hz.1 e h.1)

    insert-IsSorted : (x : A) (ys : List A) → P x → All P ys → IsSorted ys → IsSorted (insert x ys)
    unfolding insert
    insert-IsSorted x [] hx hys s = (tt, tt)
    insert-IsSorted x (y ∷ ys) hx hys s = elim (Bool-cases (before y x)) [
      | inl e ↦ rw e (
        insert-All (λ z. before z y ≡ false) x ys (asymmetric y x e) s.0,
        insert-IsSorted x ys hx hys.1 s.1,
      )
      | inr e ↦ rw e ((e, never_before x y ys hx hys.0 hys.1 e s.0), s)
    ]

    pub sort-IsSorted : (xs : List A) → All P xs → IsSorted (sort xs)
    unfolding sort
    sort-IsSorted [] h = tt
    sort-IsSorted (x ∷ xs) h =
        insert-IsSorted x (sort xs) h.0 (sort-All P xs h.1) (sort-IsSorted xs h.1)
