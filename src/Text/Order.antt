-- ===== src/Text/Order.antt =====
-- The order of texts is total.
use Prim.Native.Char.{Char, code}
use Prim.Native.Nat.{Ordering, compare as compare_ℕ}
use Prim.Native.String.{[], ◌∷◌, compare, then as followed_by}
use Prim.Native.String.compare.{cons-cons, nil-nil, nil-cons, cons-nil}
use sentinel_drive.Prelude.{
  String, Bool, true, false, ◌≡◌, refl, ◌∙◌, ap, if◌then◌else◌, ltb, ◌==◌, nat_Eq, arith,
}
use sentinel_drive.Text.{text_le}

abbrev not_greater : Ordering → Bool
not_greater Ordering.gt = false
not_greater _ = true

then_cases :
    (o p : Ordering)
    → not_greater (followed_by o p) ≡ (
        if (elim o [ Ordering.lt ↦ true | _ ↦ false ])
        then true
        else if (elim o [ Ordering.eq ↦ true | _ ↦ false ])
        then not_greater p
        else false)
then_cases Ordering.lt p = refl
then_cases Ordering.eq p = refl
then_cases Ordering.gt p = refl

text_le-cons :
    (c d : Char) (s t : String)
    → text_le (c ∷ s) (d ∷ t)
      ≡ (if ltb (code c) (code d) then true else if code c == code d then text_le s t else false)
text_le-cons c d s t =
    ap not_greater (cons-cons c d s t) ∙ then_cases (compare_ℕ (code c) (code d)) (compare s t)

text_le-nil : (t : String) → text_le [] t ≡ true
text_le-nil [] = ap not_greater nil-nil
text_le-nil (d ∷ t) = ap not_greater (nil-cons d t)

text_le-cons_nil : (c : Char) (s : String) → text_le (c ∷ s) [] ≡ false
text_le-cons_nil c s = ap not_greater (cons-nil c s)

pub text_le_total : (s t : String) → text_le s t ≡ false → text_le t s ≡ true
text_le_total [] t h = cc (text_le-nil t)
text_le_total (c ∷ s) [] h = text_le-nil (c ∷ s)
text_le_total (c ∷ s) (d ∷ t) h =
    ground (arith, text_le-cons c d s t, text_le-cons d c t s, text_le_total s t)

pub text_le_trans : (s t u : String) → text_le s t ≡ true → text_le t u ≡ true → text_le s u ≡ true
text_le_trans [] t u h k = text_le-nil u
text_le_trans (c ∷ s) [] u h k = cc (text_le-cons_nil c s)
text_le_trans (c ∷ s) (d ∷ t) [] h k = cc (text_le-cons_nil d t)
text_le_trans (c ∷ s) (d ∷ t) (e ∷ u) h k =
    ground
      (arith, text_le-cons c d s t, text_le-cons d e t u, text_le-cons c e s u, text_le_trans s t u)
