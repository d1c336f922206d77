-- ===== src/Api/Safety/Urls.antt =====
-- What is left of a URL after the redaction of backend/app/api/safety.py.
use Prim.Native.Char.{Char, code}
use Prim.Native.String.{[], ◌∷◌}
use mathlib.Core.List.{[], ◌∷◌}
use text.Mathlib.TextLemmas.{nil-append, cons-append}
use sentinel_drive.Prelude.{
  String, ◌<>◌, Bool, true, false, ◌&&◌, ◌||◌, not, Option, none, some, ◌≡◌, refl, ◌∙◌, sym, arith,
  List, nat_Eq, ◌==◌, Bool-cases, inl, inr, or-false, All, keep, pos, ℕ,
}
use sentinel_drive.Value.{Python}
use sentinel_drive.Text.{has_prefix, is_in, is_empty}
use sentinel_drive.Api.Safety.{
  Web, SplitResult, Port, no_port, bad_port, port, looks_sensitive_value, is_safe_item, safe_query,
  host_text, with_port, bracketed, safe_netloc,
}

-- No at sign, behind which a URL's user and password stand.
abbrev pub NoAt : String → Type 0
NoAt s = is_in "@" s ≡ false

is_in-at : (c : Char) (s : String) → is_in "@" (c ∷ s) ≡ (b'@' == code c || is_in "@" s)
unfolding is_in has_prefix
is_in-at c s = ground arith

NoAt-append : (s t : String) → NoAt s → NoAt t → NoAt (s <> t)
NoAt-append [] t h k = rw nil-append k
NoAt-append (c ∷ s) t h k =
    let (here, there) = or-false (b'@' == code c) (is_in "@" s) (sym (is_in-at c s) ∙ h) in
    rw (cons-append, is_in-at c (s <> t), here, NoAt-append s t there k)

keep-All {ℓ} : {A : Type ℓ} (p : A → Bool) (xs : List A) → All (λ x. p x ≡ true) (keep p xs)
keep-All p [] = tt
keep-All p (x ∷ xs) = elim (Bool-cases (p x)) [
  | inl e ↦ rw e (e, keep-All p xs)
  | inr e ↦ rw e (keep-All p xs)
]

bracket_NoAt : (s : String) → NoAt s → NoAt ("[" <> (s <> "]"))
unfolding is_in has_prefix
bracket_NoAt s h = NoAt-append "[" (s <> "]") refl (NoAt-append s "]" h refl)

NoAt-colon : NoAt ":"
unfolding is_in has_prefix
NoAt-colon = refl

-- The characters of a port.
abbrev pub PlainDigits : Python → Type 0
PlainDigits P = (n : ℕ) → NoAt (P.str_int (pos n))

bracketed-NoAt : (s : String) → NoAt s → NoAt (bracketed s)
unfolding bracketed
bracketed-NoAt s h = elim (Bool-cases (not (is_empty s) && is_in ":" s && not (has_prefix "[" s))) [
  | inl e ↦ rw e (bracket_NoAt s h)
  | inr e ↦ rw e h
]

host_text-NoAt : (o : Option String) → ((s : String) → o ≡ some s → NoAt s) → NoAt (host_text o)
unfolding is_in has_prefix
host_text-NoAt none h = refl
host_text-NoAt (some s) h = h s refl

module _ (W : Web) (P : Python) where
  with_port-NoAt : (p : Port) (s : String) → PlainDigits P → NoAt s → NoAt (with_port P p s)
  unfolding with_port
  with_port-NoAt no_port s d h = h
  with_port-NoAt bad_port s d h = h
  with_port-NoAt (port n) s d h = elim (Bool-cases (is_empty s)) [
    | inl e ↦ rw e h
    | inr e ↦ rw e (
        NoAt-append s (":" <> P.str_int (pos n)) h
          (NoAt-append ":" (P.str_int (pos n)) NoAt-colon (d n)))
  ]

  -- A redacted network location has no user and password, where the host's name has none.
  pub safe_netloc-NoAt :
      (r : SplitResult)
      → ((s : String) → r.hostname ≡ some s → NoAt s)
      → PlainDigits P
      → NoAt (safe_netloc W P r)
  unfolding safe_netloc is_in has_prefix
  safe_netloc-NoAt r h d =
      let netloc = with_port P r.port_of (bracketed (host_text r.hostname)) in
      elim (Bool-cases (is_empty netloc)) [
        | inl e ↦ elim (Bool-cases (is_in "@" r.netloc || looks_sensitive_value W r.netloc)) [
          | inl f ↦ rw (e, f)
          | inr f ↦ rw (e, f) (or-false (is_in "@" r.netloc) (looks_sensitive_value W r.netloc) f).0
        ]
        | inr e ↦ rw e (
            with_port-NoAt r.port_of (bracketed (host_text r.hostname)) d
              (bracketed-NoAt (host_text r.hostname) (host_text-NoAt r.hostname h)))
      ]

  -- The items that are kept of a query have neither a sensitive name nor a sensitive value.
  pub safe_query-All :
      (query : String) → All (λ item. is_safe_item W item ≡ true) (safe_query W query)
  unfolding safe_query
  safe_query-All query = keep-All (is_safe_item W) (W.parse_qsl query)
