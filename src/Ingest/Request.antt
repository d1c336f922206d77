-- ===== src/Ingest/Request.antt =====
-- The validators of `IntelligenceIngestRequest`, backend/app/api/schemas/intelligence.py. A request
-- is accepted where every field is.
use Prim.Native.Char.{code}
use Prim.Native.String.{[], ◌∷◌}
use mathlib.Core.List.{[], ◌∷◌}
use sentinel_drive.Prelude.{
  ℕ, zero, suc, String, Bool, true, false, ◌&&◌, ◌||◌, not, Option, none, some, List, ◌==◌,
  string_Eq, nat_Eq, leb, if◌then◌else◌, ℤ, pos, negsuc, length, contains, sort_by,
}
use sentinel_drive.Text.{strip, lower, upper, is_in, is_empty, text_le}
use sentinel_drive.Value.{Fields, dict}
use sentinel_drive.Sanitize.{size, after_word}
use sentinel_drive.Api.Safety.{Datetime, Web, looks_sensitive_value}
use sentinel_drive.Ingest.Payload.{Payload, Severity}

-- The body of the request, each field of its declared type; `none` is a missing field or null.
pub record Draft : Type 0 where
  pub source_name : Option String
  pub source_url : Option String
  pub platform : Option String
  pub title : Option String
  pub summary : Option String
  pub description : Option String
  pub external_id : Option String
  pub cve_id : Option String
  pub cnvd_id : Option String
  pub vendor_advisory_id : Option String
  pub affected_vendor : Option String
  pub affected_products : List String
  pub components : List String
  pub attack_surfaces : List String
  pub severity : Option String
  pub external_score : Option ℤ
  pub published_at : Option Datetime
  pub collected_at : Option Datetime
  pub dedup_key : Option String
  pub content_hash : Option String
  pub raw_payload : Option Fields
  pub tags : List String

-- `none` is a ValueError of a validator.
infixl 5 ◌>>=◌ ◌>>◌
abbrev pub ◌>>=◌ : {A B : Type 0} → Option A → (A → Option B) → Option B
none >>= f = none
some a >>= f = f a

abbrev pub ◌>>◌ : {B : Type 0} → Option (Unit {0}) → Option B → Option B
m >> k = m >>= λ _. k

abbrev pub guard : Bool → Option (Unit {0})
guard true = some tt
guard false = none

-- `value.strip() or None`
unfoldable pub strip_optional_text : Option String → Option String
strip_optional_text none = none
strip_optional_text (some value) =
    let stripped = strip value in if stripped == "" then none else some stripped

-- `Field(min_length=least, max_length=most)`
abbrev pub has_length : ℕ → ℕ → String → Bool
has_length least most s = leb least (size s) && leb (size s) most

-- `Field(ge=0, le=100)`
abbrev pub is_percentage : ℤ → Bool
is_percentage (pos n) = leb n 10000
is_percentage (negsuc n) = false

module _ (W : Web) where
  unfoldable pub reject_obvious_secret_text : String → Option String
  reject_obvious_secret_text value = if looks_sensitive_value W value then none else some value

  -- A text field that must be there.
  unfoldable pub required_text : ℕ → ℕ → Option String → Option String
  required_text least most none = none
  required_text least most (some s) =
      if has_length least most s then reject_obvious_secret_text s else none

  unfoldable pub optional_text : ℕ → Option String → Option (Option String)
  optional_text most none = some none
  optional_text most (some s) =
      if has_length 0 most s then (reject_obvious_secret_text s >>= λ t. some (some t)) else none

  -- The source's URL, which is not searched for secrets.
  unfoldable pub validate_source_url : Option String → Option String
  validate_source_url none = none
  validate_source_url (some s) =
      if has_length 1 1000 s && not (is_in " " s || not (is_in "://" s)) then some s else none

  -- The number of digits at the start, where nothing else follows.
  unfoldable pub digits_to_end : String → Option ℕ
  digits_to_end [] = some 0
  digits_to_end (c ∷ s) =
      let rest = digits_to_end s in
      if W.is_digit (code c) then (rest >>= λ n. some (suc n)) else none

  abbrev pub at_least_four : Option ℕ → Bool
  at_least_four none = false
  at_least_four (some n) = leb 4 n

  -- `\d{4}-\d{4,}`, with the number of year digits still to come.
  unfoldable pub is_year_and_number : ℕ → String → Bool
  is_year_and_number n [] = false
  is_year_and_number zero (c ∷ s) = code c == b'-' && at_least_four (digits_to_end s)
  is_year_and_number (suc n) (c ∷ s) = W.is_digit (code c) && is_year_and_number n s

  abbrev pub year_follows : Option String → Bool
  year_follows none = false
  year_follows (some s) = is_year_and_number 4 s

  -- `CVE_PATTERN.fullmatch`
  unfoldable pub is_cve : String → Bool
  is_cve s = year_follows (after_word "cve-" s)

  unfoldable pub normalize_cve_id : Option String → Option (Option String)
  normalize_cve_id none = some none
  normalize_cve_id (some value) =
      if has_length 0 32 value
      then (let cve = upper (strip value) in if is_cve cve then some (some cve) else none)
      else none

  -- The loop of `normalize_text_list`, with the set built so far.
  unfoldable pub clean_items : List String → List String → Option (List String)
  clean_items found [] = some found
  clean_items found (item ∷ items) =
      let clean = lower (strip item) in
      let rest =
        clean_items (if is_empty clean || contains found clean then found else clean ∷ found)
          items in
      if is_empty clean
      then rest
      else if leb (size clean) 120 && not (looks_sensitive_value W clean)
      then rest
      else none

  unfoldable pub normalize_text_list : ℕ → List String → Option (List String)
  normalize_text_list most items =
      if leb (length items) most
      then (clean_items [] items >>= λ found. some (sort_by text_le found))
      else none

  -- `json.dumps(value)` of at most 32 KB.
  unfoldable pub limit_raw_payload_size : Option Fields → Option (Option Fields)
  limit_raw_payload_size none = some none
  limit_raw_payload_size (some fs) =
      if leb (W.json_size (dict fs)) 32768 then some (some fs) else none

abbrev pub severity_aliases : List (String × String)
severity_aliases =
    ("严重", "critical")
    ∷ ("高危", "high")
    ∷ ("中危", "medium")
    ∷ ("低危", "low")
    ∷ ("信息", "unknown")
    ∷ ("info", "unknown")
    ∷ []

-- `aliases.get(normalized, normalized)`
abbrev pub alias_of : List (String × String) → String → String
alias_of [] s = s
alias_of ((k, v) ∷ kvs) s = if k == s then v else alias_of kvs s

-- `Severity(value)`
abbrev pub severity_of : String → Option Severity
severity_of s =
    if s == "unknown"
    then some Severity.unknown
    else if s == "low"
    then some Severity.low
    else if s == "medium"
    then some Severity.medium
    else if s == "high"
    then some Severity.high
    else if s == "critical"
    then some Severity.critical
    else none

unfoldable pub normalize_severity : Option String → Option Severity
normalize_severity none = some Severity.unknown
normalize_severity (some value) = severity_of (alias_of severity_aliases (lower (strip value)))

abbrev pub score_in_range : Option ℤ → Bool
score_in_range none = true
score_in_range (some n) = is_percentage n

-- `not self.source_name and not self.platform`
abbrev pub has_identity : String → Option String → Bool
has_identity name none = not (is_empty name)
has_identity name (some platform) = not (is_empty name && is_empty platform)

unfoldable pub validated : Web → Draft → Option Payload
validated W d = do
  source_name ← required_text W 1 160 (strip_optional_text d.source_name)
  source_url ← validate_source_url W (strip_optional_text d.source_url)
  platform ← optional_text W 80 (strip_optional_text d.platform)
  title ← required_text W 3 500 (strip_optional_text d.title)
  summary ← required_text W 1 4000 (strip_optional_text d.summary)
  description ← optional_text W 12000 (strip_optional_text d.description)
  external_id ← optional_text W 240 (strip_optional_text d.external_id)
  cve_id ← normalize_cve_id W d.cve_id
  cnvd_id ← optional_text W 80 (strip_optional_text d.cnvd_id)
  vendor_advisory_id ← optional_text W 120 (strip_optional_text d.vendor_advisory_id)
  affected_vendor ← optional_text W 160 (strip_optional_text d.affected_vendor)
  affected_products ← normalize_text_list W 50 d.affected_products
  components ← normalize_text_list W 50 d.components
  attack_surfaces ← normalize_text_list W 50 d.attack_surfaces
  severity ← normalize_severity d.severity
  guard (score_in_range d.external_score)
  dedup_key ← optional_text W 320 (strip_optional_text d.dedup_key)
  content_hash ← optional_text W 128 (strip_optional_text d.content_hash)
  raw_payload ← limit_raw_payload_size W d.raw_payload
  tags ← normalize_text_list W 30 d.tags
  guard (has_identity source_name platform)
  some (record {
    source_name = source_name;
    source_url = source_url;
    platform = platform;
    title = title;
    summary = summary;
    description = description;
    external_id = external_id;
    cve_id = cve_id;
    cnvd_id = cnvd_id;
    vendor_advisory_id = vendor_advisory_id;
    affected_vendor = affected_vendor;
    affected_products = affected_products;
    components = components;
    attack_surfaces = attack_surfaces;
    severity = severity;
    external_score = d.external_score;
    published_at = d.published_at;
    collected_at = d.collected_at;
    dedup_key = dedup_key;
    content_hash = content_hash;
    raw_payload = raw_payload;
    tags = tags;
  })
