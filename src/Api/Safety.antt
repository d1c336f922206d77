-- ===== src/Api/Safety.antt =====
-- The redaction of what the backend stores and returns: backend/app/api/safety.py.
pub mod Keys
pub mod Urls
use Prim.Native.Char.{code}
use Prim.Native.String.{[], ◌∷◌}
use mathlib.Core.List.{[], ◌∷◌}
use sentinel_drive.Prelude.{
  ℕ, zero, suc, String, ◌<>◌, Bool, true, false, ◌&&◌, ◌||◌, not, Option, none, some, List, ◌==◌,
  string_Eq, if◌then◌else◌, pos, keep, any,
}
use sentinel_drive.Text.{lower, dashes_to_underscores, has_prefix, is_in, is_empty, lstrip}
use sentinel_drive.Value.{
  Python, Value, none_value, bool, int, float, str, time, other, list, dict, Values, nil, cons,
  Fields, end, field, put, text_or_none,
}
use sentinel_drive.Sanitize.{
  after_word, or_match, bind, after_key, after_sign, after_value, stops_nowhere,
}

-- `parsed.port`, which raises where the port is no number in range.
pub data Port : Type 0 where
  no_port bad_port : Port
  port : ℕ → Port

-- What `urlsplit` gives, with the attributes that it computes from the network location.
pub record SplitResult : Type 0 where
  pub scheme : String
  pub netloc : String
  pub path : String
  pub query : String
  pub fragment : String
  pub hostname : Option String
  pub port_of : Port

-- `datetime`: one with an offset is its instant, one without is its time of day and date.
pub data Datetime : Type 0 where
  aware naive : ℕ → Datetime

-- What the backend uses of `urllib.parse`, where `none` is a ValueError and `defrag` is the first part
-- of `urldefrag`; the characters of `\w` and `\d`; the ISO text of a datetime, the text of one
-- without an offset, and the instant that the database makes of it, in its time zone; and the number
-- of characters of `json.dumps`.
pub record Web : Type 0 where
  pub urlsplit : String → Option SplitResult
  pub urlunsplit : String → String → String → String → String → String
  pub parse_qsl : String → List (String × String)
  pub urlencode : List (String × String) → String
  pub defrag : String → Option String
  pub is_word : ℕ → Bool
  pub is_digit : ℕ → Bool
  pub isoformat : Datetime → String
  pub str_naive : ℕ → String
  pub instant_of_naive : ℕ → ℕ
  pub json_size : Value → ℕ

abbrev pub sensitive_key_parts : List String
sensitive_key_parts =
    "authorization" ∷ "api_key" ∷ "apikey" ∷ "cookie" ∷ "credential" ∷ "header" ∷ "password"
    ∷ "private" ∷ "raw" ∷ "secret" ∷ "token" ∷ []

unfoldable pub is_sensitive_name : String → Bool
is_sensitive_name value =
    let normalized = dashes_to_underscores (lower value) in
    any (λ part. is_in part normalized) sensitive_key_parts

-- `password|token|secret|api[_-]?key|authorization|cookie`
unfoldable pub after_credential : String → Option String
after_credential s = or_match (after_word "password" s) (
    or_match (after_word "token" s) (
      or_match (after_word "secret" s) (
        or_match (bind (after_word "api" s) after_key)
          (or_match (after_word "authorization" s) (after_word "cookie" s)))))

abbrev pub is_match : Option String → Bool
is_match none = false
is_match (some _) = true

-- The pattern behind its `\b`.
unfoldable pub assigns_credential : String → Bool
assigns_credential s = is_match (
    bind (after_credential s)
      (λ r. bind (after_sign (lstrip r)) (λ v. after_value stops_nowhere (lstrip v))))

abbrev pub looks_like_url : String → Bool
looks_like_url value = has_prefix "http://" value || has_prefix "https://" value

abbrev pub host_text : Option String → String
host_text none = ""
host_text (some h) = h

-- `f"{netloc}:{port}"` where there is a port and a host.
unfoldable pub with_port : Python → Port → String → String
with_port P no_port netloc = netloc
with_port P bad_port netloc = netloc
with_port P (port n) netloc =
    if is_empty netloc then netloc else netloc <> (":" <> P.str_int (pos n))

unfoldable pub bracketed : String → String
bracketed hostname =
    if not (is_empty hostname) && is_in ":" hostname && not (has_prefix "[" hostname)
    then "[" <> (hostname <> "]")
    else hostname

-- The redacted value if it is a dict, and else the empty dict.
abbrev pub fields_or_empty : Value → Fields
fields_or_empty (dict fs) = fs
fields_or_empty _ = end

module _ (W : Web) where
  -- The search, behind a character that is or is not one of `\w`.
  unfoldable pub search_from : Bool → String → Bool
  search_from behind_word [] = false
  search_from behind_word (c ∷ s) =
      (not behind_word && assigns_credential (c ∷ s)) || search_from (W.is_word (code c)) s

  unfoldable pub looks_sensitive_value : String → Bool
  looks_sensitive_value value = search_from false value

  unfoldable pub safe_text : Option String → Option String
  safe_text none = none
  safe_text (some value) = if looks_sensitive_value value then none else some value

  -- `not is_sensitive_name(key) and not looks_sensitive_value(item)`
  abbrev pub is_safe_item : String × String → Bool
  is_safe_item (key, item) = not (is_sensitive_name key) && not (looks_sensitive_value item)

  unfoldable pub safe_query : String → List (String × String)
  safe_query query = keep is_safe_item (W.parse_qsl query)

  unfoldable pub safe_fragment : String → String
  safe_fragment value =
      if is_empty value
      then value
      else if looks_sensitive_value value
      then ""
      else if any (λ (key, item). is_sensitive_name key || looks_sensitive_value item)
          (W.parse_qsl value)
      then ""
      else value

  unfoldable pub safe_netloc : Python → SplitResult → String
  safe_netloc P parsed =
      let netloc = with_port P parsed.port_of (bracketed (host_text parsed.hostname)) in
      if is_empty netloc
      then (if is_in "@" parsed.netloc || looks_sensitive_value parsed.netloc
          then ""
          else parsed.netloc)
      else netloc

  unfoldable pub rebuilt_url : Python → SplitResult → String
  rebuilt_url P parsed =
      W.urlunsplit parsed.scheme (safe_netloc P parsed) parsed.path
        (W.urlencode (safe_query parsed.query)) (safe_fragment parsed.fragment)

  unfoldable pub safe_split : Python → String → Option SplitResult → Option String
  safe_split P value none = if looks_sensitive_value value then none else some value
  safe_split P value (some parsed) = some (rebuilt_url P parsed)

  unfoldable pub safe_url : Python → Option String → Option String
  safe_url P none = none
  safe_url P (some value) =
      if is_empty value then some value else safe_split P value (W.urlsplit value)

  unfoldable pub safe_string : Python → String → Value
  safe_string P value =
      if looks_like_url value
      then text_or_none (safe_url P (some value))
      else if looks_sensitive_value value
      then none_value
      else str value

  unfoldable mutual
    pub safe_metadata : Python → Value → Value
    safe_metadata P (dict fs) = dict (safe_fields P fs end)
    safe_metadata P (list vs) = list (safe_items P vs 50)
    safe_metadata P (str s) = safe_string P s
    safe_metadata P none_value = none_value
    safe_metadata P (bool b) = bool b
    safe_metadata P (int n) = int n
    safe_metadata P (float n) = float n
    safe_metadata P (time t) = str (P.str_time t)
    safe_metadata P (other s) = str s

    -- The loop over a dict's items, with the dict built so far.
    pub safe_fields : Python → Fields → Fields → Fields
    safe_fields P end safe = safe
    safe_fields P (field key item fs) safe =
        safe_fields P fs
          (if is_sensitive_name key then safe else put safe key (safe_metadata P item))

    -- `[safe_metadata(item) for item in value[:n]]`
    pub safe_items : Python → Values → ℕ → Values
    safe_items P nil n = nil
    safe_items P (cons v vs) zero = nil
    safe_items P (cons v vs) (suc n) = cons (safe_metadata P v) (safe_items P vs n)

  unfoldable pub safe_dict : Python → Fields → Fields
  safe_dict P value = fields_or_empty (safe_metadata P (dict value))
