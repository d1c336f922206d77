-- ===== src/Prelude/Sort.antt =====
-- `sorted` and ORDER BY: a stable insertion sort.
use mathlib.Core.Path.{◌≡◌}
use mathlib.Core.Bool.{Bool, true, false}
use mathlib.Core.List.{List, [], ◌∷◌}
use sentinel_drive.Prelude.Tests.{if◌then◌else◌, Bool-cases}
use sentinel_drive.Prelude.Lists.{All}
use mathlib.Core.Logic.{inl, inr}

module _ {ℓ} {A : Type ℓ} (le : A → A → Bool) where
  unfoldable pub insert_by : A → List A → List A
  insert_by x [] = x ∷ []
  insert_by x (y ∷ ys) = let rest = insert_by x ys in if le x y then x ∷ y ∷ ys else y ∷ rest

  unfoldable pub sort_by : List A → List A
  unfolding insert_by
  sort_by [] = []
  sort_by (x ∷ xs) = insert_by x (sort_by xs)

  -- Every element comes before all that stand behind it.
  abbrev pub Sorted : List A → Type ℓ
  Sorted [] = Unit
  Sorted (x ∷ xs) = All (λ y. le x y ≡ true) xs × Sorted xs

module _ {ℓ κ} {A : Type ℓ} (P : A → Type κ) where
  pub insert_by-All :
      (le : A → A → Bool) (x : A) (xs : List A) → P x → All P xs → All P (insert_by le x xs)
  unfolding insert_by
  insert_by-All le x [] p h = (p, tt)
  insert_by-All le x (y ∷ ys) p (q, h) = elim (Bool-cases (le x y)) [
    | inl e ↦ rw e (p, (q, h))
    | inr e ↦ rw e (q, insert_by-All le x ys p h)
  ]

  pub sort_by-All : (le : A → A → Bool) (xs : List A) → All P xs → All P (sort_by le xs)
  unfolding sort_by
  sort_by-All le [] h = tt
  sort_by-All le (x ∷ xs) (p, h) = insert_by-All le x (sort_by le xs) p (sort_by-All le xs h)

module _ {ℓ} {A : Type ℓ} (le : A → A → Bool) (total : (x y : A) → le x y ≡ false → le y x ≡ true)
    (trans : (x y z : A) → le x y ≡ true → le y z ≡ true → le x z ≡ true) where
  All-le_trans :
      (x y : A) (ys : List A)
      → le x y ≡ true
      → All (λ z. le y z ≡ true) ys
      → All (λ z. le x z ≡ true) ys
  All-le_trans x y [] e h = tt
  All-le_trans x y (z ∷ ys) e (p, h) = (trans x y z e p, All-le_trans x y ys e h)

  insert_by-Sorted : (x : A) (xs : List A) → Sorted le xs → Sorted le (insert_by le x xs)
  unfolding insert_by
  insert_by-Sorted x [] h = (tt, tt)
  insert_by-Sorted x (y ∷ ys) (p, h) = elim (Bool-cases (le x y)) [
    | inl e ↦ rw e ((e, All-le_trans x y ys e p), (p, h))
    | inr e ↦
        rw e (insert_by-All (λ z. le y z ≡ true) le x ys (total x y e) p, insert_by-Sorted x ys h)
  ]

  pub sort_by-Sorted : (xs : List A) → Sorted le (sort_by le xs)
  unfolding sort_by
  sort_by-Sorted [] = tt
  sort_by-Sorted (x ∷ xs) = insert_by-Sorted x (sort_by le xs) (sort_by-Sorted xs)
