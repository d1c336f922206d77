-- ===== src/Normalization/Unique.antt =====
-- `unique_values` of worker/sentineldrive_worker/normalization/service.py.
use sentinel_drive.Prelude.{
  ◌≡◌, refl, sym, ap, ◌∙◌, or-false, Bool, true, false, ◌||◌, List, [], ◌∷◌, ◌++◌, if◌then◌else◌,
  any, any-append, arith, All, Bool-cases, inl, inr, or-true_right, ◌==◌, string_Eq, All-append,
}
use mathlib.Core.Path.{subst}
use mathlib.Core.List.{append-nil, append_assoc}
use sentinel_drive.Value.{Value, none_value, str}
use sentinel_drive.Value.Equality.{value_eq}

-- `value in result`
abbrev pub has_value : Value → List Value → Bool
has_value v = any (λ w. value_eq w v)

-- `value is None or value == ""`
abbrev pub is_blank : Value → Bool
is_blank none_value = true
is_blank (str s) = s == ""
is_blank _ = false

-- The loop, on the list built so far.
unfoldable pub unique_from : List Value → List Value → List Value
unique_from result [] = result
unique_from result (v ∷ vs) =
    unique_from (if is_blank v || has_value v result then result else result ++ (v ∷ [])) vs

unfoldable pub unique_values : List Value → List Value
unfolding unique_from
unique_values vs = unique_from [] vs

-- No element equals an earlier one.
abbrev pub Distinct : List Value → Type 0
Distinct [] = Unit
Distinct (v ∷ vs) = (any (λ w. value_eq v w) vs ≡ false) × Distinct vs

pub Distinct-append :
    (xs : List Value) (v : Value) → Distinct xs → has_value v xs ≡ false → Distinct (xs ++ (v ∷ []))
Distinct-append [] v h e = (refl, tt)
Distinct-append (x ∷ xs) v (p, h) e = (
  rw (any-append (λ w. value_eq x w) xs (v ∷ [])) (ground arith),
  Distinct-append xs v h (ground arith),
)

unique_from-Distinct : (result vs : List Value) → Distinct result → Distinct (unique_from result vs)
unfolding unique_from
unique_from-Distinct result [] h = h
unique_from-Distinct result (v ∷ vs) h = elim (Bool-cases (is_blank v || has_value v result)) [
  | inl e ↦ rw e (unique_from-Distinct result vs h)
  | inr e ↦
      rw e
        (unique_from-Distinct (result ++ (v ∷ [])) vs (Distinct-append result v h (ground arith)))
]

-- The result holds no value twice.
pub unique_values-Distinct : (vs : List Value) → Distinct (unique_values vs)
unfolding unique_values
unique_values-Distinct vs = unique_from-Distinct [] vs tt

-- What is in the list so far stays in it.
unique_from-keeps :
    (v : Value) (result vs : List Value)
    → has_value v result ≡ true
    → has_value v (unique_from result vs) ≡ true
unfolding unique_from
unique_from-keeps v result [] h = h
unique_from-keeps v result (w ∷ vs) h = elim (Bool-cases (is_blank w || has_value w result)) [
  | inl e ↦ rw e (unique_from-keeps v result vs h)
  | inr e ↦ rw e (
      unique_from-keeps v (result ++ (w ∷ [])) vs
        (rw (any-append (λ u. value_eq u v) result (w ∷ []), h)))
]

has_value-append_self :
    (xs : List Value) (v : Value) → value_eq v v ≡ true → has_value v (xs ++ (v ∷ [])) ≡ true
has_value-append_self xs v e =
    rw (any-append (λ u. value_eq u v) xs (v ∷ []), e) (or-true_right (has_value v xs))

-- Every value that is not blank gets in.
abbrev pub Covered : List Value → List Value → Type 0
Covered result = All (λ v. (is_blank v || has_value v result) ≡ true)

abbrev pub Reflexive : List Value → Type 0
Reflexive = All (λ v. value_eq v v ≡ true)

in_or_blank :
    (v : Value) (result vs : List Value)
    → (is_blank v || has_value v result) ≡ true
    → (is_blank v || has_value v (unique_from result vs)) ≡ true
in_or_blank v result vs e = ground (arith, unique_from-keeps v result vs)

unique_from-skip :
    (result vs : List Value) (v : Value)
    → (is_blank v || has_value v result) ≡ true
    → unique_from result (v ∷ vs) ≡ unique_from result vs
unfolding unique_from
unique_from-skip result vs v e = rw e

unique_from-push :
    (result vs : List Value) (v : Value)
    → (is_blank v || has_value v result) ≡ false
    → unique_from result (v ∷ vs) ≡ unique_from (result ++ (v ∷ [])) vs
unfolding unique_from
unique_from-push result vs v e = rw e

unique_from-Covered : (result vs : List Value) → Reflexive vs → Covered (unique_from result vs) vs
unique_from-Covered result [] h = tt
unique_from-Covered result (v ∷ vs) (e, h) = elim (Bool-cases (is_blank v || has_value v result)) [
  | inl p ↦
      subst (λ r. Covered r (v ∷ vs)) (sym (unique_from-skip result vs v p))
        (in_or_blank v result vs p, unique_from-Covered result vs h)
  | inr p ↦
      subst (λ r. Covered r (v ∷ vs)) (sym (unique_from-push result vs v p))
        (
          rw (unique_from-keeps v (result ++ (v ∷ [])) vs (has_value-append_self result v e))
              (or-true_right (is_blank v)),
          unique_from-Covered (result ++ (v ∷ [])) vs h,
        )
]

-- The result holds every value of the list that is not blank.
pub unique_values-Covered : (vs : List Value) → Reflexive vs → Covered (unique_values vs) vs
unfolding unique_values
unique_values-Covered vs h = unique_from-Covered [] vs h

unique_from-append :
    (result xs ys : List Value)
    → unique_from result (xs ++ ys) ≡ unique_from (unique_from result xs) ys
unfolding unique_from
unique_from-append result [] ys = refl
unique_from-append result (x ∷ xs) ys =
    unique_from-append (if is_blank x || has_value x result then result else result ++ (x ∷ [])) xs
      ys

-- A list whose values are all there adds nothing.
unique_from_of_Covered :
    (result vs : List Value) → Covered result vs → unique_from result vs ≡ result
unfolding unique_from
unique_from_of_Covered result [] h = refl
unique_from_of_Covered result (v ∷ vs) (e, h) = rw e (unique_from_of_Covered result vs h)

abbrev Nonblank : List Value → Type 0
Nonblank = All (λ v. is_blank v ≡ false)

unique_from-Nonblank : (result vs : List Value) → Nonblank result → Nonblank (unique_from result vs)
unfolding unique_from
unique_from-Nonblank result [] h = h
unique_from-Nonblank result (v ∷ vs) h = elim (Bool-cases (is_blank v || has_value v result)) [
  | inl e ↦ rw e (unique_from-Nonblank result vs h)
  | inr e ↦ rw e (
      unique_from-Nonblank (result ++ (v ∷ [])) vs (
        All-append (λ v. is_blank v ≡ false) result (v ∷ []) h ((or-false (is_blank v) _ e).0, tt)))
]

Distinct-middle :
    (result : List Value) (v : Value) (vs : List Value)
    → Distinct (result ++ v ∷ vs)
    → has_value v result ≡ false
Distinct-middle [] v vs h = refl
Distinct-middle (r ∷ result) v vs (p, h) =
    ground (arith, Distinct-middle result v vs h, any-append (λ w. value_eq r w) result (v ∷ vs))

-- A list with no blank and no repetition is taken over as it is.
unique_from_of_Distinct :
    (result vs : List Value)
    → Distinct (result ++ vs)
    → Nonblank vs
    → unique_from result vs ≡ result ++ vs
unfolding unique_from
unique_from_of_Distinct result [] h k = sym (append-nil result)
unique_from_of_Distinct result (v ∷ vs) h (b, k) =
    rw (b, Distinct-middle result v vs h)
      (unique_from_of_Distinct (result ++ (v ∷ [])) vs (rw append_assoc h) k
        ∙ append_assoc result (v ∷ []) vs)

-- Adding the same values a second time changes nothing.
pub unique_values_idem :
    (xs ys : List Value)
    → Reflexive ys
    → unique_values (unique_values (xs ++ ys) ++ ys) ≡ unique_values (xs ++ ys)
unfolding unique_values
unique_values_idem xs ys h =
    let u = unique_from [] (xs ++ ys) in
    unique_from-append [] u ys
    ∙ (ap (λ r. unique_from r ys)
          (unique_from_of_Distinct [] u (unique_from-Distinct [] (xs ++ ys) tt)
            (unique_from-Nonblank [] (xs ++ ys) tt))
        ∙ unique_from_of_Covered u ys
            (rw (unique_from-append [] xs ys) (unique_from-Covered (unique_from [] xs) ys h)))
