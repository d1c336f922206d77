-- ===== src/Text/Search.antt =====
-- Substring search: `is_in` finds exactly the texts that stand inside.
use Prim.Native.Char.{Char, code}
use Prim.Native.String.{[], ◌∷◌}
use text.Mathlib.TextLemmas.{nil-append, cons-append}
use sentinel_drive.Prelude.{String, ◌<>◌, ◌≡◌, refl, true, nat_Eq, or-true_right, beq_refl}
use sentinel_drive.Text.{has_prefix, is_in}

pub has_prefix-append : (t s : String) → has_prefix t (t <> s) ≡ true
unfolding has_prefix
has_prefix-append [] s = refl
has_prefix-append (c ∷ t) s =
    rw (cons-append, has_prefix) (rw (beq_refl (code c)) (has_prefix-append t s))

is_in_of_prefix : (t s : String) → has_prefix t s ≡ true → is_in t s ≡ true
unfolding is_in
is_in_of_prefix t [] h = h
is_in_of_prefix t (d ∷ s) h = rw h

is_in_of_tail : (d : Char) (t s : String) → is_in t s ≡ true → is_in t (d ∷ s) ≡ true
unfolding is_in
is_in_of_tail d t s h = rw h (or-true_right (has_prefix t (d ∷ s)))

-- A text is found wherever it stands.
pub is_in-append : (before t after : String) → is_in t (before <> (t <> after)) ≡ true
is_in-append [] t after = rw nil-append (is_in_of_prefix t _ (has_prefix-append t after))
is_in-append (d ∷ before) t after =
    rw cons-append (is_in_of_tail d t _ (is_in-append before t after))
