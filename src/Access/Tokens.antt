-- ===== src/Access/Tokens.antt =====
-- Access tokens, backend/app/security/tokens.py. HMAC, base64 and JSON are parameters; bytes are
-- texts. An instant is its number of microseconds.
pub mod RoundTrip
pub mod Sound
use Prim.Native.Char.{Char, code}
use Prim.Native.String.{[], ◌∷◌}
use mathlib.Core.List.{[], ◌∷◌}
use sentinel_drive.Prelude.{
  ℕ, zero, suc, ◌+◌, ◌-◌, ◌*◌, ◌/◌, ◌%◌, String, ◌<>◌, Bool, true, false, ◌&&◌, not, Option, none,
  some, List, ◌⊎◌, inl, inr, ◌==◌, nat_Eq, string_Eq, if◌then◌else◌, ltb, ℤ, pos, negsuc,
}
use sentinel_drive.Sanitize.{size}
use sentinel_drive.Value.{Value, dict, str, int, bool, Fields, end, field, from_items, get}

-- What the program uses of hmac, hashlib, base64 and json. `None` is a ValueError; `b64encode` is the
-- URL-safe variant. `compare_digest` refuses texts that are not ASCII.
pub record Crypto : Type 0 where
  pub hmac_sha256 : String → String → String
  pub b64encode : String → String
  pub b64decode : String → Option String
  pub dumps : Value → String
  pub loads : String → Option Value
  pub is_ascii : String → Bool

-- `TokenError` with its message, and the exceptions that are none.
pub data TokenFailure : Type 0 where
  invalid_token expired_token type_error attribute_error : TokenFailure

-- A character in front of what is left behind it.
abbrev pub trimmed : Char → String → String
trimmed c [] = if code c == b'=' then [] else c ∷ []
trimmed c (d ∷ r) = c ∷ d ∷ r

-- `s.rstrip("=")`
unfoldable pub strip_padding : String → String
strip_padding [] = []
strip_padding (c ∷ s) = trimmed c (strip_padding s)

-- `"=" * n`
unfoldable pub padding : ℕ → String
padding zero = ""
padding (suc n) = "=" <> padding n

abbrev pub prepend : Char → Option (String × String) → Option (String × String)
prepend c none = none
prepend c (some (a, b)) = some (c ∷ a, b)

-- `token.split(".", 1)`, where two parts are wanted.
unfoldable pub split_token : String → Option (String × String)
split_token [] = none
split_token (c ∷ s) =
    let rest = split_token s in if code c == b'.' then some ([], s) else prepend c rest

-- Seconds of an instant, and the eight hours that a token is good for.
abbrev pub seconds : ℕ → ℕ
seconds t = t / 1000000

abbrev pub token_ttl : ℕ
token_ttl = 28800000000

-- `isinstance(value, int)` and the value; a Boolean is an int.
abbrev pub int_of : Value → Option ℤ
int_of (int n) = some n
int_of (bool true) = some (pos 1)
int_of (bool false) = some (pos 0)
int_of _ = none

-- `not isinstance(exp, int) or exp < now`
abbrev pub is_expired : Option ℤ → ℕ → Bool
is_expired none now = true
is_expired (some (pos n)) now = ltb n now
is_expired (some (negsuc n)) now = true

abbrev pub is_text : Value → Bool
is_text (str s) = true
is_text _ = false

-- The claims of a token.
abbrev pub claims : String → String → Bool → ℕ → Fields
claims user_id email is_admin now = from_items (
    ("sub", str user_id)
    ∷ ("email", str email)
    ∷ ("is_admin", bool is_admin)
    ∷ ("iat", int (pos (seconds now)))
    ∷ ("exp", int (pos (seconds (now + token_ttl))))
    ∷ [])

module _ (C : Crypto) where
  unfoldable pub encode : String → String
  unfolding strip_padding
  encode value = strip_padding (C.b64encode value)

  unfoldable pub decode : String → Option String
  unfolding padding
  decode value = C.b64decode (value <> padding ((4 - size value % 4) % 4))

  unfoldable pub signature : String → String → String
  signature secret segment = encode (C.hmac_sha256 secret segment)

  unfoldable pub create_access_token : String → String → String → Bool → ℕ → String
  create_access_token secret user_id email is_admin now =
      let segment = encode (C.dumps (dict (claims user_id email is_admin now))) in
      segment <> ("." <> signature secret segment)

  -- The checks on the claims.
  unfoldable pub checked_claims : ℕ → Fields → TokenFailure ⊎ Fields
  checked_claims now payload =
      if is_expired (int_of (get payload "exp")) (seconds now)
      then inl expired_token
      else if is_text (get payload "sub")
      then inr payload
      else inl invalid_token

  unfoldable pub checked_value : ℕ → Option Value → TokenFailure ⊎ Fields
  unfolding checked_claims
  checked_value now none = inl invalid_token
  checked_value now (some (dict payload)) = checked_claims now payload
  checked_value now (some _) = inl attribute_error

  unfoldable pub loaded : Option String → Option Value
  loaded none = none
  loaded (some bytes) = C.loads bytes

  unfoldable pub checked_token : String → ℕ → Option (String × String) → TokenFailure ⊎ Fields
  unfolding signature checked_value loaded decode
  checked_token secret now none = inl invalid_token
  checked_token secret now (some (segment, given)) =
      let expected = signature secret segment in
      if not (C.is_ascii given && C.is_ascii expected)
      then inl type_error
      else if given == expected
      then checked_value now (loaded (decode segment))
      else inl invalid_token

  unfoldable pub decode_access_token : String → ℕ → String → TokenFailure ⊎ Fields
  unfolding split_token checked_token
  decode_access_token secret now token = checked_token secret now (split_token token)
