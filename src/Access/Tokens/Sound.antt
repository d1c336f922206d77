-- ===== src/Access/Tokens/Sound.antt =====
-- What backend/app/security/tokens.py decodes was signed with the secret.
use Prim.Native.Char.{Char, code, char}
use Prim.Native.String.{[], ◌∷◌}
use text.Mathlib.TextEquality.{Char-path}
use text.Mathlib.TextLemmas.{nil-append, cons-append}
use sentinel_drive.Prelude.{
  ℕ, String, ◌<>◌, true, false, ◌&&◌, not, Option, none, some, ◌≡◌, refl, ◌∙◌, sym, ap, inl, inr,
  ◌==◌, nat_Eq, string_Eq, arith, Bool-cases,
}
use sentinel_drive.Value.{Value, dict, Fields, get}
use sentinel_drive.Access.Tokens.{
  Crypto, split_token, prepend, seconds, int_of, is_text, is_expired, signature, checked_claims,
  checked_value, loaded, checked_token, decode, decode_access_token,
}

-- What every accepted token is: a segment with its signature, whose bytes are JSON of a dict with a
-- text as subject and an expiry that has not passed.
pub record IsAccepted (C : Crypto) (secret : String) (now : ℕ) (token : String) (payload : Fields)
    : Type 0 where
  pub segment : String
  pub is_signed : token ≡ segment <> ("." <> signature C secret segment)
  pub says : loaded C (decode C segment) ≡ some (dict payload)
  pub unexpired : is_expired (int_of (get payload "exp")) (seconds now) ≡ false
  pub subject : is_text (get payload "sub") ≡ true

prepend-inv :
    (c : Char) (o : Option (String × String)) (a b : String)
    → prepend c o ≡ some (a, b)
    → (r : String) × (o ≡ some (r, b)) × (a ≡ c ∷ r)
prepend-inv c none a b h = cc
prepend-inv c (some (r, t)) a b h = (r, cc, cc)

dot : (c : Char) → (code c == b'.') ≡ true → c ≡ char b'.' tt
dot c h = Char-path _ _ (ground arith)

dot-append : (s : String) → "." <> s ≡ char b'.' tt ∷ s
dot-append s = rw (cons-append, nil-append)

-- The first part is empty where the token begins with a dot.
at_dot :
    (c : Char) (s a b : String)
    → (code c == b'.') ≡ true
    → ◌≡◌ {A = Option (String × String)} (some ("", s)) (some (a, b))
    → c ∷ s ≡ a <> ("." <> b)
at_dot c s a b e h =
    let front : "" ≡ a = cc in
    let back : s ≡ b = cc in rw (← front, ← back, nil-append, dot-append s, dot c e) refl

-- The two parts of a token are what stands before and behind its first dot.
split_token-inv : (token a b : String) → split_token token ≡ some (a, b) → token ≡ a <> ("." <> b)
unfolding split_token
split_token-inv [] a b h = cc
split_token-inv (c ∷ s) a b h = elim (Bool-cases (code c == b'.')) [
  | inl e ↦ at_dot c s a b e (rw e at h)
  | inr e ↦
      let (r, q, l) = prepend-inv c (split_token s) a b (rw e at h) in
      ap (λ t. c ∷ t) (split_token-inv s r b q)
      ∙ (sym (cons-append c r ("." <> b)) ∙ ap (λ t. t <> ("." <> b)) (sym l))
]

module _ (C : Crypto) (secret : String) (now : ℕ) where
  claims-IsAccepted :
      (fs payload : Fields)
      → checked_claims C now fs ≡ inr payload
      → (fs ≡ payload)
        × (is_expired (int_of (get fs "exp")) (seconds now) ≡ false)
        × (is_text (get fs "sub") ≡ true)
  unfolding checked_claims
  claims-IsAccepted fs payload h =
      elim (Bool-cases (is_expired (int_of (get fs "exp")) (seconds now))) [
        | inl e ↦ cc (rw e at h)
        | inr e ↦ elim (Bool-cases (is_text (get fs "sub"))) [
          | inl t ↦ (cc (rw (e, t) at h), e, t)
          | inr t ↦ cc (rw (e, t) at h)
        ]
      ]

  value-IsAccepted :
      (o : Option Value) (payload : Fields)
      → checked_value C now o ≡ inr payload
      → (fs : Fields) × (o ≡ some (dict fs)) × (checked_claims C now fs ≡ inr payload)
  unfolding checked_value
  value-IsAccepted none payload h = cc
  value-IsAccepted (some (dict fs)) payload h = (fs, refl, h)
  value-IsAccepted (some _) payload h = cc

  token-IsAccepted :
      (token : String) (o : Option (String × String)) (payload : Fields)
      → split_token token ≡ o
      → checked_token C secret now o ≡ inr payload
      → IsAccepted C secret now token payload
  unfolding checked_token
  token-IsAccepted token none payload s h = cc
  token-IsAccepted token (some (segment, given)) payload s h =
      let expected = signature C secret segment in
      elim (Bool-cases (not (C.is_ascii given && C.is_ascii expected))) [
        | inl e ↦ cc (rw e at h)
        | inr e ↦ elim (Bool-cases (given == expected)) [
          | inl q ↦
              let (fs, v, c) =
                value-IsAccepted (loaded C (decode C segment)) payload (rw (e, q) at h) in
              let (same, x, t) = claims-IsAccepted fs payload c in
              record {
                segment = segment;
                is_signed =
                    split_token-inv token segment given s
                    ∙ ap (λ x. segment <> ("." <> x)) ((string_Eq.equal_iff given expected).0 q);
                says = v ∙ ap (λ f. some (dict f)) same;
                unexpired = rw (← same) x;
                subject = rw (← same) t;
              }
          | inr q ↦ cc (rw (e, q) at h)
        ]
      ]

  -- Whatever token is decoded without an error was signed with the secret, carries the claims that
  -- are returned, has not expired, and names its subject.
  pub decode-IsAccepted :
      (token : String) (payload : Fields)
      → decode_access_token C secret now token ≡ inr payload
      → IsAccepted C secret now token payload
  unfolding decode_access_token
  decode-IsAccepted token payload = token-IsAccepted token (split_token token) payload refl
