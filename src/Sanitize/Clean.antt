-- ===== src/Sanitize/Clean.antt =====
-- No credential name is left in a sanitised message.
use Prim.Native.Char.{Char, char, code}
use Prim.Native.String.{[], ◌∷◌}
use mathlib.Core.Option.{some-injective}
use text.Mathlib.TextLemmas.{nil-append, cons-append}
use sentinel_drive.Prelude.{
  ℕ, zero, suc, ◌-◌, String, ◌<>◌, ◌≡◌, refl, ◌≢◌, ◌||◌, Option, none, some, ◌==◌, nat_Eq, arith,
  Bool-cases, Option-cases, inl, inr,
}
use sentinel_drive.Text.{take_text}
use sentinel_drive.Sanitize.{
  fold_code, size, after_word, or_match, bind, after_key, after_name, replace_all, sanitize_error,
  sanitize_runtime_error, Error,
}

-- At no place of the text does a credential name begin, in any letter case.
abbrev pub IsClean : String → Type 0
IsClean [] = Unit
IsClean (c ∷ s) = (after_name (c ∷ s) ≡ none) × IsClean s

-- The first text is like the second up to a bracket, or up to its end.
data Agrees : String → String → Type 0 where
  cut : {t : String} → Agrees [] t
  bracket : {s t : String} (c : Char) → code c ≡ b'[' → Agrees (c ∷ s) t
  same : {s t : String} (c : Char) → Agrees s t → Agrees (c ∷ s) (c ∷ t)

-- A word with no bracket in it.
abbrev NoBracket : String → Type 0
NoBracket [] = Unit
NoBracket (c ∷ w) = (code c ≢ b'[') × NoBracket w

fold_code-bracket : (n : ℕ) → n ≡ b'[' → fold_code n ≡ b'['
unfolding fold_code
fold_code-bracket n h = ground arith

-- A word that is found in the first text is found in the second.
after_word-Agrees :
    (w : String) {s t : String} (r : String)
    → NoBracket w
    → Agrees s t
    → after_word w s ≡ some r
    → (q : String) × (after_word w t ≡ some q) × Agrees r q
unfolding after_word
after_word-Agrees [] {s} {t} r h a e = (t, refl, rw (some-injective s r e) at a)
after_word-Agrees (c ∷ w) r h cut e = cc
after_word-Agrees (c ∷ w) r (n, h) (bracket d b) e =
    absurd (ground (arith, fold_code-bracket (code d) b))
after_word-Agrees (c ∷ w) r (n, h) (same {s} {t} d a) e =
    elim (Bool-cases (fold_code (code d) == code c)) [
      | inl p ↦ rw (p, after_word) (after_word-Agrees w r h a (rw (p, after_word) at e))
      | inr p ↦ absurd (ground (arith))
    ]

key_NoBracket : NoBracket "key"
key_NoBracket = omega arith

after_key-Agrees :
    {s t : String} (r : String)
    → Agrees s t
    → after_key s ≡ some r
    → (q : String) × (after_key t ≡ some q)
unfolding after_key
after_key-Agrees r cut e = cc
after_key-Agrees r (bracket {s} {t} d b) e = absurd (ground (arith, fold_code-bracket (code d) b))
after_key-Agrees r (same {s} {t} d a) e = elim (Bool-cases (code d == b'_' || code d == b'-')) [
  | inl p ↦
      let found = after_word-Agrees "key" r key_NoBracket a (rw (p, after_key) at e) in
      (found.0, rw (p, after_key) found.1)
  | inr p ↦
      let found = after_word-Agrees "key" r key_NoBracket (same d a) (rw (p, after_key) at e) in
      (found.0, rw (p, after_key) found.1)
]

bind-some :
    (o : Option String) (f : String → Option String) (r : String)
    → bind o f ≡ some r
    → (m : String) × (o ≡ some m) × (f m ≡ some r)
bind-some none f r e = cc
bind-some (some m) f r e = (m, refl, e)

api_key-Agrees :
    (s t : String) (r : String)
    → Agrees s t
    → bind (after_word "api" s) after_key ≡ some r
    → (q : String) × (bind (after_word "api" t) after_key ≡ some q)
api_key-Agrees s t r a e =
    let (m, found, rest) = bind-some (after_word "api" s) after_key r e in
    let (n, found', b) = after_word-Agrees "api" m (omega arith) a found in
    let (q, rest') = after_key-Agrees r b rest in (q, rw found' rest')

-- If a find in the first gives a find in the second, and the second has none, neither has the first.
refute :
    (o p : Option String)
    → ((r : String) → o ≡ some r → (q : String) × (p ≡ some q))
    → p ≡ none
    → o ≡ none
refute none p h e = refl
refute (some r) p h e = let (q, found) = h r refl in cc

word_none :
    (w s t : String) → NoBracket w → Agrees s t → after_word w t ≡ none → after_word w s ≡ none
word_none w s t h a =
    refute (after_word w s) (after_word w t)
      (λ r e. let found = after_word-Agrees w r h a e in (found.0, found.1))

or_match-none : (p q : Option String) → or_match p q ≡ none → (p ≡ none) × (q ≡ none)
or_match-none none q e = (refl, e)
or_match-none (some r) q e = cc

names_NoBracket :
    NoBracket "authorization" × NoBracket "password" × NoBracket "secret" × NoBracket "token"
names_NoBracket = (omega arith, omega arith, omega arith, omega arith)

-- A name that begins the first text begins the second.
after_name-Agrees : (s t : String) → Agrees s t → after_name t ≡ none → after_name s ≡ none
unfolding after_name
after_name-Agrees s t a e =
    let rest₄ = after_word "token" t in
    let rest₃ = or_match (after_word "secret" t) rest₄ in
    let rest₂ = or_match (after_word "password" t) rest₃ in
    let rest₁ = or_match (after_word "authorization" t) rest₂ in
    let (api, e₁) = or_match-none (bind (after_word "api" t) after_key) rest₁ e in
    let (authorization, e₂) = or_match-none (after_word "authorization" t) rest₂ e₁ in
    let (password, e₃) = or_match-none (after_word "password" t) rest₃ e₂ in
    let (secret, token) = or_match-none (after_word "secret" t) rest₄ e₃ in
    rw (
      refute (bind (after_word "api" s) after_key) (bind (after_word "api" t) after_key)
          (λ r f. api_key-Agrees s t r a f) api,
      word_none "authorization" s t names_NoBracket.0 a authorization,
      word_none "password" s t names_NoBracket.1 a password,
      word_none "secret" s t names_NoBracket.2 a secret,
      word_none "token" s t names_NoBracket.3 a token,
    )

-- A prefix of a text agrees with it, and so does what a substitution makes of it.
take_text-Agrees : (n : ℕ) (s : String) → Agrees (take_text n s) s
unfolding take_text
take_text-Agrees zero s = cut
take_text-Agrees (suc n) [] = cut
take_text-Agrees (suc n) (c ∷ s) = same c (take_text-Agrees n s)

take_text-IsClean : (n : ℕ) (s : String) → IsClean s → IsClean (take_text n s)
unfolding take_text
take_text-IsClean zero s h = tt
take_text-IsClean (suc n) [] h = tt
take_text-IsClean (suc n) (c ∷ s) (e, h) = (
  after_name-Agrees (c ∷ take_text n s) (c ∷ s) (same c (take_text-Agrees n s)) e,
  take_text-IsClean n s h,
)

abbrev mark : String
mark = "[redacted]"

mark-Agrees : (s t : String) → Agrees (mark <> s) t
mark-Agrees s t = rw cons-append (bracket b refl)
  where
    b : Char
    b = char b'[' tt

replace_all-Agrees : (s : String) → Agrees (replace_all after_name mark zero s) s
unfolding replace_all
replace_all-Agrees [] = cut
replace_all-Agrees (c ∷ s) = elim (Option-cases (after_name (c ∷ s))) [
  | inl e ↦ rw (e, replace_all) (same c (replace_all-Agrees s))
  | inr (r, e) ↦
      rw (e, replace_all) (mark-Agrees (replace_all after_name mark (size s - size r) s) (c ∷ s))
]

mark-IsClean : (s : String) → IsClean s → IsClean (mark <> s)
unfolding after_name fold_code
mark-IsClean s h =
    rw
      (
        cons-append, cons-append, cons-append, cons-append, cons-append, cons-append, cons-append,
        cons-append, cons-append, cons-append, nil-append,
      )
      (refl, (refl, (refl, (refl, (refl, (refl, (refl, (refl, (refl, (refl, h))))))))))

replace_all-IsClean : (skip : ℕ) (s : String) → IsClean (replace_all after_name mark skip s)
unfolding replace_all
replace_all-IsClean zero [] = tt
replace_all-IsClean (suc skip) [] = tt
replace_all-IsClean (suc skip) (c ∷ s) = replace_all-IsClean skip s
replace_all-IsClean zero (c ∷ s) = elim (Option-cases (after_name (c ∷ s))) [
  | inl e ↦
      rw (e, replace_all)
        (
          after_name-Agrees (c ∷ replace_all after_name mark zero s) (c ∷ s)
              (same c (replace_all-Agrees s)) e,
          replace_all-IsClean zero s,
        )
  | inr (r, e) ↦
      rw (e, replace_all)
        (mark-IsClean (replace_all after_name mark (size s - size r) s)
          (replace_all-IsClean (size s - size r) s))
]

-- A sanitised message holds no credential name, whatever the message of the error: neither what the
-- services store nor what the collection runtime stores.
pub sanitize_error-IsClean :
    (e : Error) → IsClean (sanitize_error e) × IsClean (sanitize_runtime_error (some e))
unfolding sanitize_error sanitize_runtime_error
sanitize_error-IsClean e = (
  take_text-IsClean 500 _ (replace_all-IsClean zero _),
  take_text-IsClean 500 _ (replace_all-IsClean zero _),
)
