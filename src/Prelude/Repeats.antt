-- ===== src/Prelude/Repeats.antt =====
-- Lists in which nothing stands twice.
use mathlib.Core.Path.{◌≡◌, refl, subst}
use mathlib.Core.Logic.{inl, inr}
use mathlib.Core.Bool.{true, false}
use mathlib.Core.List.{List, [], ◌∷◌, ◌++◌}
use sentinel_drive.Prelude.Tests.{Bool-cases, or-false}
use sentinel_drive.Prelude.Equality.{Comparable, ◌==◌, contains, contains-append, beq_refl}

module _ {ℓ} {A : Type ℓ} ⦃c : Comparable A⦄ where
  abbrev pub NoRepeats : List A → Type 0
  NoRepeats [] = Unit
  NoRepeats (x ∷ xs) = (contains xs x ≡ false) × NoRepeats xs

  pub not_same : (x y : A) → (x == y) ≡ false → (y == x) ≡ false
  not_same x y h = elim (Bool-cases (y == x)) [
    | inl e ↦ cc (subst (λ z. (z == y) ≡ true) ((c.equal_iff y x).0 e) (beq_refl y), h)
    | inr e ↦ e
  ]

  pub NoRepeats-snoc :
      (xs : List A) (a : A) → NoRepeats xs → contains xs a ≡ false → NoRepeats (xs ++ a ∷ [])
  NoRepeats-snoc [] a h e = (refl, tt)
  NoRepeats-snoc (x ∷ xs) a (p, h) e =
      let (here, there) = or-false (x == a) (contains xs a) e in
      (rw (contains-append xs (a ∷ []) x, p, not_same x a here), NoRepeats-snoc xs a h there)
