-- ===== src/Prelude/Equality.antt =====
-- Python's `==` and `in` for the types whose equality can be tested.
use Prim.Native.Nat.{ℕ}
use Prim.Native.String.{String}
use mathlib.Core.Path.{◌≡◌, refl}
use mathlib.Core.Logic.{◌↔◌}
use mathlib.Core.Bool.{Bool, true, false, ◌||◌}
use mathlib.Core.Option.{Option, none, some}
use mathlib.Core.List.{List, [], ◌∷◌, ◌++◌}
use text.Mathlib.TextEquality.{eq_iff}
use native.Mathlib.Omega.{arith}
use text.Mathlib.Text.{◌==◌ as same_text}
use sentinel_drive.Prelude.Tests.{nat_eq}

-- A test and the law that it decides the identity of two values.
pub record Comparable {ℓ} (K : Type ℓ) : Type ℓ where
  pub equal : (x y : K) → Bool
  pub equal_iff : (x y : K) → (equal x y ≡ true) ↔ (x ≡ y)

infix 50 ◌==◌
abbrev pub ◌==◌ {ℓ} : {K : Type ℓ} ⦃c : Comparable K⦄ (x y : K) → Bool
◌==◌ ⦃c⦄ = c.equal

pub nat_eq_iff : (a b : ℕ) → (nat_eq a b ≡ true) ↔ (a ≡ b)
nat_eq_iff a b = ground arith

instance abbrev pub nat_Eq : Comparable ℕ
nat_Eq = record { equal = nat_eq; equal_iff = nat_eq_iff }

instance abbrev pub string_Eq : Comparable String
string_Eq = record { equal = same_text; equal_iff = eq_iff }

module _ {ℓ} {A : Type ℓ} ⦃c : Comparable A⦄ where
  unfoldable pub option_beq : Option A → Option A → Bool
  option_beq none none = true
  option_beq none (some b) = false
  option_beq (some a) none = false
  option_beq (some a) (some b) = a == b

  pub option_beq_iff : (o p : Option A) → (option_beq o p ≡ true) ↔ (o ≡ p)
  unfolding option_beq
  option_beq_iff none none = ground arith
  option_beq_iff none (some b) = ground arith
  option_beq_iff (some a) none = ground arith
  option_beq_iff (some a) (some b) = ground (arith, c.equal_iff a b)

  instance unfoldable pub option_Eq : Comparable (Option A)
  unfolding option_beq
  option_Eq = record { equal = option_beq; equal_iff = option_beq_iff }

  -- `a in xs`
  abbrev pub contains : (xs : List A) (a : A) → Bool
  contains [] _ = false
  contains (x ∷ rest) a = x == a || contains rest a

  pub beq_refl : (a : A) → (a == a) ≡ true
  beq_refl a = (c.equal_iff a a).1 refl

  pub contains-append :
      (xs ys : List A) (a : A) → contains (xs ++ ys) a ≡ (contains xs a || contains ys a)
  contains-append [] ys a = refl
  contains-append (x ∷ xs) ys a = ground (arith, contains-append xs ys a)
