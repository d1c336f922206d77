-- ===== src/Prelude/Find.antt =====
-- The first element of a list that fits, and one that is written over.
use mathlib.Core.Path.{◌≡◌, refl, sym, subst}
use mathlib.Core.Logic.{inl, inr}
use mathlib.Core.Bool.{Bool, true, false}
use mathlib.Core.Option.{Option, none, some, some-injective}
use mathlib.Core.List.{List, [], ◌∷◌, map}
use sentinel_drive.Prelude.Tests.{if◌then◌else◌, Bool-cases, or-true_right}
use sentinel_drive.Prelude.Lists.{any, All}

module _ {ℓ} {A : Type ℓ} where
  -- `next((x for x in xs if p(x)), None)`, and the first row of a query.
  unfoldable pub find_first : (A → Bool) → List A → Option A
  find_first p [] = none
  find_first p (x ∷ xs) = if p x then some x else find_first p xs

  pub find_first-fits : (p : A → Bool) (xs : List A) (a : A) → find_first p xs ≡ some a → p a ≡ true
  unfolding find_first
  find_first-fits p [] a h = cc
  find_first-fits p (x ∷ xs) a h = elim (Bool-cases (p x)) [
    | inl f ↦ subst (λ y. p y ≡ true) (some-injective x a (rw f at h)) f
    | inr f ↦ find_first-fits p xs a (rw f at h)
  ]

  pub find_first_of_any :
      (p : A → Bool) (xs : List A) → any p xs ≡ true → (a : A) × (find_first p xs ≡ some a)
  unfolding find_first
  find_first_of_any p [] h = cc
  find_first_of_any p (x ∷ xs) h = elim (Bool-cases (p x)) [
    | inl f ↦ (x, rw f)
    | inr f ↦ rw f (find_first_of_any p xs (rw f at h))
  ]

  pub any_of_find_first : (p : A → Bool) (xs : List A) → find_first p xs ≡ none → any p xs ≡ false
  unfolding find_first
  any_of_find_first p [] h = refl
  any_of_find_first p (x ∷ xs) h = elim (Bool-cases (p x)) [
    | inl f ↦ cc (rw f at h)
    | inr f ↦ rw f (any_of_find_first p xs (rw f at h))
  ]

  -- Where the element found is written over, under a test that it meets, by one that fits too, one
  -- that fits is left.
  pub any-map_over :
      (p same : A → Bool) (xs : List A) (a b : A)
      → find_first p xs ≡ some a
      → same a ≡ true
      → p b ≡ true
      → any p (map (λ x. if same x then b else x) xs) ≡ true
  unfolding find_first
  any-map_over p same [] a b h k f = cc
  any-map_over p same (x ∷ xs) a b h k f = elim (Bool-cases (p x)) [
    | inl g ↦ rw (subst (λ y. same y ≡ true) (sym (some-injective x a (rw g at h))) k) (rw f)
    | inr g ↦ rw (any-map_over p same xs a b (rw g at h) k f) (or-true_right _)
  ]

  pub any_of_found :
      (p q : A → Bool) (xs : List A) (a : A)
      → find_first p xs ≡ some a
      → q a ≡ true
      → any q xs ≡ true
  unfolding find_first
  any_of_found p q [] a h k = cc
  any_of_found p q (x ∷ xs) a h k = elim (Bool-cases (p x)) [
    | inl f ↦ rw (subst (λ y. q y ≡ true) (sym (some-injective x a (rw f at h))) k)
    | inr f ↦ rw (any_of_found p q xs a (rw f at h) k) (or-true_right (q x))
  ]

  -- An element that was written over is found by the test under which it was written.
  pub find_first-map_over :
      (same : A → Bool) (xs : List A) (b : A)
      → any same xs ≡ true
      → same b ≡ true
      → find_first same (map (λ x. if same x then b else x) xs) ≡ some b
  unfolding find_first
  find_first-map_over same [] b h k = cc
  find_first-map_over same (x ∷ xs) b h k = elim (Bool-cases (same x)) [
    | inl f ↦ rw f (rw k)
    | inr f ↦ rw f (rw f (find_first-map_over same xs b (rw f at h) k))
  ]

  pub All-found {κ} :
      (Holds : A → Type κ) (p : A → Bool) (xs : List A) (a : A)
      → All Holds xs
      → find_first p xs ≡ some a
      → Holds a
  unfolding find_first
  All-found Holds p [] a h f = cc
  All-found Holds p (x ∷ xs) a (here, there) f = elim (Bool-cases (p x)) [
    | inl g ↦ subst Holds (some-injective x a (rw g at f)) here
    | inr g ↦ All-found Holds p xs a there (rw g at f)
  ]

  -- What another test finds is not written over.
  pub find_first-map_other :
      (p same : A → Bool) (xs : List A) (b : A)
      → p b ≡ false
      → ((x : A) → same x ≡ true → p x ≡ false)
      → find_first p (map (λ x. if same x then b else x) xs) ≡ find_first p xs
  unfolding find_first
  find_first-map_other p same [] b h k = refl
  find_first-map_other p same (x ∷ xs) b h k = elim (Bool-cases (same x)) [
    | inl f ↦ rw (f, h, k x f) (find_first-map_other p same xs b h k)
    | inr f ↦ rw (f, find_first-map_other p same xs b h k) refl
  ]
