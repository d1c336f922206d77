-- ===== src/Text/Words.antt =====
-- Laws of `lower`, `strip`, `split` and `join`.
use Prim.Native.Char.{Char, code}
use Prim.Native.String.{[], ◌∷◌}
use mathlib.Core.List.{[], ◌∷◌}
use text.Mathlib.TextEquality.{Char-path}
use text.Mathlib.TextLemmas.{append-nil, nil-append, cons-append}
use sentinel_drive.Prelude.{
  ℕ, ◌+◌, ◌-◌, ◌<>◌, String, ◌≡◌, refl, ◌∙◌, sym, ap, true, false, List, map, arith, All, leb, ◌&&◌,
  nat_Eq, if◌then◌else◌, Bool-cases, inl, inr,
}
use sentinel_drive.Text.{
  is_space, lower_char, map_text, lower, upper, upper_char, lstrip, rstrip, strip, is_empty,
  cons_word, word_split, split, join,
}

abbrev pub lower_code : ℕ → ℕ
lower_code n = if leb 65 n && leb n 90 then n + 32 else n

pub code-lower_char : (c : Char) → code (lower_char c) ≡ lower_code (code c)
unfolding lower_char
code-lower_char c = ground arith

is_space-lower : (n : ℕ) → is_space (lower_code n) ≡ is_space n
unfolding is_space
is_space-lower n = ground arith

lower_code_idem : (n : ℕ) → lower_code (lower_code n) ≡ lower_code n
lower_code_idem n = ground arith

lower_char_idem : (c : Char) → lower_char (lower_char c) ≡ lower_char c
lower_char_idem c = Char-path _ _ (
    code-lower_char (lower_char c)
    ∙ (ap lower_code (code-lower_char c) ∙ (lower_code_idem (code c) ∙ sym (code-lower_char c))))

pub lower_idem : (s : String) → lower (lower s) ≡ lower s
unfolding map_text lower
lower_idem [] = refl
lower_idem (c ∷ s) = cc (lower_char_idem c, lower_idem s)

-- The same for capital letters.
upper_code : ℕ → ℕ
upper_code n = if leb 97 n && leb n 122 then n - 32 else n

code-upper_char : (c : Char) → code (upper_char c) ≡ upper_code (code c)
unfolding upper_char upper_code
code-upper_char c = ground arith

upper_code_idem : (n : ℕ) → upper_code (upper_code n) ≡ upper_code n
unfolding upper_code
upper_code_idem n = ground arith

upper_char_idem : (c : Char) → upper_char (upper_char c) ≡ upper_char c
upper_char_idem c = Char-path _ _ (
    code-upper_char (upper_char c)
    ∙ (ap upper_code (code-upper_char c) ∙ (upper_code_idem (code c) ∙ sym (code-upper_char c))))

pub upper_idem : (s : String) → upper (upper s) ≡ upper s
unfolding map_text upper
upper_idem [] = refl
upper_idem (c ∷ s) = cc (upper_char_idem c, upper_idem s)

pub lower-append : (s t : String) → lower (s <> t) ≡ lower s <> lower t
unfolding map_text lower
lower-append [] t = simp nil-append
lower-append (c ∷ s) t = simp (cons-append, lower-append s t)

-- A word as `split` yields it: not empty, and without white space.
abbrev pub NoSpace : String → Type 0
NoSpace [] = Unit
NoSpace (c ∷ s) = (is_space (code c) ≡ false) × NoSpace s

abbrev pub IsWord : String → Type 0
IsWord s = (is_empty s ≡ false) × NoSpace s

cons_word-lower :
    (w : String) (ws : List String)
    → cons_word (lower w) (map lower ws) ≡ map lower (cons_word w ws)
unfolding lower map_text
cons_word-lower [] ws = refl
cons_word-lower (c ∷ w) ws = refl

cons_word-All :
    (w : String) (ws : List String) → NoSpace w → All IsWord ws → All IsWord (cons_word w ws)
cons_word-All [] ws h hs = hs
cons_word-All (c ∷ w) ws h hs = ((refl, h), hs)

cons_word_of_nonempty :
    (w : String) (ws : List String) → is_empty w ≡ false → cons_word w ws ≡ w ∷ ws
cons_word_of_nonempty [] ws h = cc
cons_word_of_nonempty (c ∷ w) ws h = refl

word_split-lower :
    (s : String) → word_split (lower s) ≡ (lower (word_split s).0, map lower (word_split s).1)
unfolding word_split lower map_text
word_split-lower [] = refl
word_split-lower (c ∷ s) = elim (Bool-cases (is_space (code c))) [
  | inl e ↦
      rw (code-lower_char c, is_space-lower (code c), word_split-lower s)
        (rw e (ap (λ ws. ("", ws)) (cons_word-lower (word_split s).0 (word_split s).1)))
  | inr e ↦ rw (code-lower_char c, is_space-lower (code c), word_split-lower s) (rw e refl)
]

-- Lowering commutes with splitting.
pub split-lower : (s : String) → split (lower s) ≡ map lower (split s)
unfolding split
split-lower s = rw word_split-lower (cons_word-lower (word_split s).0 (word_split s).1)

-- White space at either end does not change the words.
split-lstrip : (s : String) → split (lstrip s) ≡ split s
unfolding split word_split lstrip
split-lstrip [] = refl
split-lstrip (c ∷ s) = elim (Bool-cases (is_space (code c))) [
  | inl e ↦ rw e (split-lstrip s)
  | inr e ↦ rw e (rw e refl)
]

is_empty→nil : (s : String) → is_empty s ≡ true → s ≡ ""
is_empty→nil [] h = refl
is_empty→nil (c ∷ s) h = cc

word_split-rstrip : (s : String) → word_split (rstrip s) ≡ word_split s
unfolding word_split rstrip
word_split-rstrip [] = refl
word_split-rstrip (c ∷ s) = elim (Bool-cases (is_space (code c))) [
  | inl e ↦ elim (Bool-cases (is_empty (rstrip s))) [
    | inl k ↦ rw (e, k, ← word_split-rstrip s, is_empty→nil (rstrip s) k) refl
    | inr k ↦ rw (e, k) (rw (e, word_split-rstrip s) refl)
  ]
  | inr e ↦ rw e (rw (e, word_split-rstrip s) refl)
]

pub split-strip : (s : String) → split (strip s) ≡ split s
unfolding strip split
split-strip s = rw word_split-rstrip (split-lstrip s)

NoSpace-append :
    (s t : String) → NoSpace s → word_split (s <> t) ≡ (s <> (word_split t).0, (word_split t).1)
unfolding word_split
NoSpace-append [] t h = simp nil-append
NoSpace-append (c ∷ s) t (e, h) = simp (cons-append) (rw (NoSpace-append s t h) (rw e refl))

word_split-NoSpace : (s : String) → NoSpace (word_split s).0 × All IsWord (word_split s).1
unfolding word_split
word_split-NoSpace [] = (tt, tt)
word_split-NoSpace (c ∷ s) = elim (Bool-cases (is_space (code c))) [
  | inl e ↦ rw e (
    tt,
    cons_word-All (word_split s).0 (word_split s).1 (word_split-NoSpace s).0
        (word_split-NoSpace s).1,
  )
  | inr e ↦ rw e ((e, (word_split-NoSpace s).0), (word_split-NoSpace s).1)
]

pub split-IsWord : (s : String) → All IsWord (split s)
unfolding split
split-IsWord s =
    cons_word-All (word_split s).0 (word_split s).1 (word_split-NoSpace s).0
      (word_split-NoSpace s).1

space-append :
    (s : String) → word_split (" " <> s) ≡ ("", cons_word (word_split s).0 (word_split s).1)
unfolding word_split is_space
space-append s = rw (cons-append, nil-append) refl

split-join_cons :
    (w : String) (ws : List String)
    → NoSpace w
    → All IsWord ws
    → word_split (join " " (w ∷ ws)) ≡ (w, ws)
unfolding join word_split is_space
split-join_cons w [] h hs = rw append-nil at (NoSpace-append w "" h)
split-join_cons w (v ∷ ws) h ((e, k), hs) =
    NoSpace-append w (" " <> join " " (v ∷ ws)) h
    ∙ rw (space-append, split-join_cons v ws k hs, cons_word_of_nonempty v ws e)
        (rw append-nil refl)

-- `" ".join(words).split()` gives the words back.
pub split-join : (ws : List String) → All IsWord ws → split (join " " ws) ≡ ws
unfolding split join word_split
split-join [] h = refl
split-join (w ∷ ws) ((e, k), h) = rw (split-join_cons w ws k h) (cons_word_of_nonempty w ws e)
