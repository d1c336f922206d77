-- ===== src/Search/Like.antt =====
-- `_like_pattern` finds what `in` finds.
use Prim.Native.Char.{Char, char, code, IsScalar}
use Prim.Native.String.{[], ◌∷◌}
use mathlib.Core.Path.{subst}
use mathlib.Core.List.{[], ◌∷◌}
use text.Mathlib.TextEquality.{Char-path}
use text.Mathlib.TextLemmas.{append-nil, nil-append, cons-append}
use sentinel_drive.Prelude.{
  ℕ, String, ◌<>◌, true, false, ◌≡◌, refl, ◌∙◌, sym, ap, List, ◌++◌, ◌==◌, nat_Eq, if◌then◌else◌,
  Bool-cases, inl, inr, arith, or-true_right,
}
use sentinel_drive.Text.{lower, map_text, is_in, has_prefix}
use sentinel_drive.Search.{
  replace_char, like_pattern, Token, run, exact, tokens, token_match, ilike,
}

-- A term as the tokens that match it.
exacts : String → List Token
exacts [] = []
exacts (c ∷ s) = exact c ∷ exacts s

token_match-run : (s : String) → token_match (run ∷ []) s ≡ true
unfolding token_match
token_match-run [] = refl
token_match-run (c ∷ s) = rw (token_match-run s) (or-true_right false)

-- At the start of the text.
token_match-prefix :
    (t s : String) → token_match (exacts t ++ run ∷ []) s ≡ has_prefix (lower t) (lower s)
unfolding exacts token_match has_prefix lower map_text
token_match-prefix [] s = token_match-run s
token_match-prefix (c ∷ t) [] = refl
token_match-prefix (c ∷ t) (d ∷ s) = rw (token_match-prefix t s)

-- Anywhere.
token_match-is_in :
    (t s : String) → token_match (run ∷ (exacts t ++ run ∷ [])) s ≡ is_in (lower t) (lower s)
unfolding token_match is_in lower map_text
token_match-is_in t [] = token_match-prefix t []
token_match-is_in t (d ∷ s) = rw (token_match-prefix t (d ∷ s), token_match-is_in t s) refl

text_append_assoc : (a b c : String) → (a <> b) <> c ≡ a <> (b <> c)
text_append_assoc [] b c = rw (nil-append, nil-append)
text_append_assoc (x ∷ a) b c = rw (cons-append, cons-append, text_append_assoc a b c, cons-append)

replace_char-append :
    (n : ℕ) (new s t : String)
    → replace_char n new (s <> t) ≡ replace_char n new s <> replace_char n new t
unfolding replace_char
replace_char-append n new [] t = rw (nil-append, nil-append)
replace_char-append n new (c ∷ s) t =
    rw (cons-append, replace_char-append n new s t)
      (sym (
        text_append_assoc (if code c == n then new else c ∷ "") (replace_char n new s)
          (replace_char n new t)))

-- The three replacements on a text, and what they leave of one character.
escaped : String → String
escaped s = replace_char b'_' "\\_" (replace_char b'%' "\\%" (replace_char b'\\' "\\\\" s))

piece : Char → String
piece c = escaped (c ∷ "")

escaped-append : (s t : String) → escaped (s <> t) ≡ escaped s <> escaped t
unfolding escaped
escaped-append s t = rw (replace_char-append, replace_char-append, replace_char-append)

escaped-cons : (c : Char) (s : String) → escaped (c ∷ s) ≡ piece c <> escaped s
unfolding piece
escaped-cons c s = rw (← escaped-append (c ∷ "") s, cons-append, nil-append)

special : (c : Char) (n : ℕ) (v : IsScalar n) → (code c == n) ≡ true → char n v ≡ c
special c n v h = Char-path _ _ (ground arith)

one_char : (c : Char) (rest : String) → (c ∷ "") <> rest ≡ c ∷ rest
one_char c rest = rw (cons-append, nil-append)

two_chars : (c d : Char) (rest : String) → (c ∷ d ∷ "") <> rest ≡ c ∷ d ∷ rest
two_chars c d rest = rw (cons-append, cons-append, nil-append)

-- Each piece reads as the character that it came from.
abbrev ReadsAs : Char → Type 0
ReadsAs c = (rest : String) → tokens false (piece c <> rest) ≡ exact c ∷ tokens false rest

slash-ReadsAs : ReadsAs (char b'\\' tt)
unfolding piece escaped replace_char tokens
slash-ReadsAs rest = ap (tokens false) (two_chars (char b'\\' tt) (char b'\\' tt) rest)

percent-ReadsAs : ReadsAs (char b'%' tt)
unfolding piece escaped replace_char tokens
percent-ReadsAs rest = ap (tokens false) (two_chars (char b'\\' tt) (char b'%' tt) rest)

underscore-ReadsAs : ReadsAs (char b'_' tt)
unfolding piece escaped replace_char tokens
underscore-ReadsAs rest = ap (tokens false) (two_chars (char b'\\' tt) (char b'_' tt) rest)

replace_char_other :
    (n : ℕ) (new : String) (c : Char) → (code c == n) ≡ false → replace_char n new (c ∷ "") ≡ c ∷ ""
unfolding replace_char
replace_char_other n new c e = rw e (append-nil (c ∷ ""))

piece_of_plain :
    (c : Char)
    → (code c == b'\\') ≡ false
    → (code c == b'%') ≡ false
    → (code c == b'_') ≡ false
    → piece c ≡ c ∷ ""
unfolding piece escaped
piece_of_plain c s p u =
    rw (replace_char_other b'\\' "\\\\" c s, replace_char_other b'%' "\\%" c p)
      (replace_char_other b'_' "\\_" c u)

plain-ReadsAs :
    (c : Char)
    → (code c == b'\\') ≡ false
    → (code c == b'%') ≡ false
    → (code c == b'_') ≡ false
    → ReadsAs c
unfolding tokens
plain-ReadsAs c s p u rest =
    ap (λ x. tokens false (x <> rest)) (piece_of_plain c s p u)
    ∙ (ap (tokens false) (one_char c rest) ∙ rw (p, u, s) refl)

piece-ReadsAs : (c : Char) → ReadsAs c
piece-ReadsAs c = elim (Bool-cases (code c == b'\\')) [
  | inl e ↦ subst ReadsAs (special c b'\\' tt e) slash-ReadsAs
  | inr s ↦ elim (Bool-cases (code c == b'%')) [
    | inl e ↦ subst ReadsAs (special c b'%' tt e) percent-ReadsAs
    | inr p ↦ elim (Bool-cases (code c == b'_')) [
      | inl e ↦ subst ReadsAs (special c b'_' tt e) underscore-ReadsAs
      | inr u ↦ plain-ReadsAs c s p u
    ]
  ]
]

tokens-escaped :
    (t rest : String) → tokens false (escaped t <> rest) ≡ exacts t ++ tokens false rest
unfolding escaped replace_char exacts
tokens-escaped [] rest = rw nil-append
tokens-escaped (c ∷ t) rest = rw (
  escaped-cons c t,
  text_append_assoc (piece c) (escaped t) rest,
  piece-ReadsAs c (escaped t <> rest),
  tokens-escaped t rest,
)

like_pattern-tokens : (t : String) → tokens false (like_pattern t) ≡ run ∷ (exacts t ++ run ∷ [])
unfolding like_pattern tokens escaped
like_pattern-tokens t = rw (cons-append, nil-append) (ap (λ ts. run ∷ ts) (tokens-escaped t "%"))

-- A column matches the pattern of a term exactly where the term stands in it, in any letter case:
-- percent signs, underscores and backslashes of the term stand for themselves.
pub ilike-like_pattern :
    (value term : String) → ilike value (like_pattern term) ≡ is_in (lower term) (lower value)
unfolding ilike
ilike-like_pattern value term =
    ap (λ ts. token_match ts value) (like_pattern-tokens term) ∙ token_match-is_in term value
