-- ===== src/Access/Tokens/RoundTrip.antt =====
-- What backend/app/security/tokens.py creates, it decodes until it expires.
use Prim.Native.Char.{Char, code}
use Prim.Native.String.{[], ◌∷◌}
use mathlib.Core.Path.{subst}
use text.Mathlib.TextLemmas.{nil-append, cons-append}
use sentinel_drive.Prelude.{
  ℕ, zero, suc, ◌+◌, ◌-◌, ◌%◌, ◌<◌, String, ◌<>◌, Bool, true, false, some, ◌≡◌, refl, ◌∙◌, sym, ap,
  inl, inr, ◌==◌, nat_Eq, string_Eq, if◌then◌else◌, ltb, arith, beq_refl,
}
use sentinel_drive.Sanitize.{size}
use sentinel_drive.Value.{dict, Fields, get, value_runs}
use sentinel_drive.Access.Tokens.{
  Crypto, expired_token, trimmed, strip_padding, padding, split_token, seconds, token_ttl, claims,
  encode, decode, signature, create_access_token, checked_claims, checked_value, loaded,
  checked_token, decode_access_token,
}

-- Neither a padding sign nor a dot.
abbrev pub NoMarks : String → Type 0
NoMarks [] = Unit
NoMarks (c ∷ s) = ((code c == b'=') ≡ false) × (((code c == b'.') ≡ false) × NoMarks s)

-- A text of base64: its length is a multiple of four, with up to three padding signs at its end.
pub record IsBase64 (t : String) : Type 0 where
  pub body : String
  pub signs : ℕ
  pub is_padded : t ≡ body <> padding signs
  pub plain : NoMarks body
  pub few : signs < 4
  pub whole : (size body + signs) % 4 ≡ 0

-- What base64 and JSON promise: the encoder makes base64 that the decoder reads back, and texts,
-- Booleans and numbers of a dict are read back under their keys.
pub record CryptoLaws (C : Crypto) : Type 0 where
  pub b64_shape : (bytes : String) → IsBase64 (C.b64encode bytes)
  pub b64_back : (bytes : String) → C.b64decode (C.b64encode bytes) ≡ some bytes
  pub json_back :
      (user_id email : String) (is_admin : Bool) (now : ℕ)
      → (fs : Fields) × (C.loads (C.dumps (dict (claims user_id email is_admin now)))
          ≡ some (dict fs))
        × ((k : String) → get fs k ≡ get (claims user_id email is_admin now) k)
  pub ascii_body : (bytes : String) → C.is_ascii (encode C bytes) ≡ true

strip_padding-padding : (n : ℕ) → strip_padding (padding n) ≡ ""
unfolding strip_padding padding
strip_padding-padding zero = refl
strip_padding-padding (suc n) = rw (cons-append, nil-append, strip_padding-padding n)

trimmed-plain : (c : Char) (s : String) → (code c == b'=') ≡ false → trimmed c s ≡ c ∷ s
trimmed-plain c [] h = rw h
trimmed-plain c (d ∷ s) h = refl

strip_padding-padded : (s : String) (n : ℕ) → NoMarks s → strip_padding (s <> padding n) ≡ s
unfolding strip_padding
strip_padding-padded [] n h = rw nil-append (strip_padding-padding n)
strip_padding-padded (c ∷ s) n (e, (_, h)) =
    rw (cons-append, strip_padding-padded s n h) (trimmed-plain c s e)

split_token-append : (s t : String) → NoMarks s → split_token (s <> ("." <> t)) ≡ some (s, t)
unfolding split_token
split_token-append [] t h = rw (nil-append, cons-append, nil-append)
split_token-append (c ∷ s) t (_, (e, h)) =
    subst (λ r. split_token r ≡ some (c ∷ s, t)) (sym (cons-append c s ("." <> t)))
      (rw (split_token-append s t h) (rw e))

signs_of_length : (n k : ℕ) → k < 4 → (n + k) % 4 ≡ 0 → (4 - n % 4) % 4 ≡ k
signs_of_length n k h e = omega arith

module _ (C : Crypto) (L : CryptoLaws C) where
  encode-body : (bytes : String) → encode C bytes ≡ (L.b64_shape bytes).body
  unfolding encode
  encode-body bytes =
      let b = L.b64_shape bytes in rw b.is_padded (strip_padding-padded b.body b.signs b.plain)

  encode-NoMarks : (bytes : String) → NoMarks (encode C bytes)
  encode-NoMarks bytes = subst NoMarks (sym (encode-body bytes)) (L.b64_shape bytes).plain

  -- The padding that was taken off is put back.
  decode-encode : (bytes : String) → decode C (encode C bytes) ≡ some bytes
  unfolding decode
  decode-encode bytes =
      let b = L.b64_shape bytes in
      subst (λ x. C.b64decode (x <> padding ((4 - size x % 4) % 4)) ≡ some bytes)
        (sym (encode-body bytes))
        (ap (λ k. C.b64decode (b.body <> padding k))
            (signs_of_length (size b.body) b.signs b.few b.whole)
          ∙ (ap C.b64decode (sym b.is_padded) ∙ L.b64_back bytes))

  -- The claims pass the checks until the token expires.
  claims-checked :
      (user_id email : String) (is_admin : Bool) (now later : ℕ) (fs : Fields)
      → ((k : String) → get fs k ≡ get (claims user_id email is_admin now) k)
      → checked_claims C later fs
        ≡ (if ltb (seconds (now + token_ttl)) (seconds later) then inl expired_token else inr fs)
  unfolding checked_claims value_runs
  claims-checked user_id email is_admin now later fs h = rw (h "exp", h "sub") refl

  signature-is_ascii : (secret segment : String) → C.is_ascii (signature C secret segment) ≡ true
  unfolding signature
  signature-is_ascii secret segment = L.ascii_body (C.hmac_sha256 secret segment)

  signed-checked :
      (secret bytes : String) (later : ℕ)
      → checked_token C secret later (some (encode C bytes, signature C secret (encode C bytes)))
        ≡ checked_value C later (C.loads bytes)
  unfolding checked_token loaded
  signed-checked secret bytes later =
      rw
        (
          signature-is_ascii secret (encode C bytes),
          beq_refl (signature C secret (encode C bytes)),
          decode-encode bytes,
        )
        refl

  -- Where base64 and JSON keep what is promised of them, a token that was created is decoded with the
  -- same secret, and gives a dict with the claims it was created with, up to the second in which it
  -- expires, eight hours later; after that it is refused as expired.
  pub decode-create :
      (secret user_id email : String) (is_admin : Bool) (now later : ℕ)
      → (fs : Fields) × ((k : String) → get fs k ≡ get (claims user_id email is_admin now) k)
        × (decode_access_token C secret later
              (create_access_token C secret user_id email is_admin now)
            ≡ (if ltb (seconds (now + token_ttl)) (seconds later)
                then inl expired_token
                else inr fs))
  unfolding decode_access_token create_access_token checked_value
  decode-create secret user_id email is_admin now later =
      let bytes = C.dumps (dict (claims user_id email is_admin now)) in
      let (fs, back, same) = L.json_back user_id email is_admin now in
      (
        fs,
        same,
        ap (checked_token C secret later) (
              split_token-append (encode C bytes) (signature C secret (encode C bytes))
                (encode-NoMarks bytes))
            ∙ (signed-checked secret bytes later
                ∙ (ap (checked_value C later) back
                    ∙ claims-checked user_id email is_admin now later fs same)),
      )
