-- ===== src/Ingest/Derived.antt =====
-- What the ingest computes from a payload, backend/app/services/intelligence_ingest.py.
use sentinel_drive.Prelude.{
  ℕ, String, ◌<>◌, Bool, true, false, ◌||◌, not, Option, none, some, List, [], ◌∷◌, ◌++◌, ◌==◌,
  string_Eq, if◌then◌else◌, ℤ, pos, ltb_ℤ, contains, map, sort_by,
}
use sentinel_drive.Text.{strip, lower, or_text, text_le, is_empty}
use sentinel_drive.Value.{
  Python, Value, none_value, str, time, dict, list, nil, Fields, end, field, put, lookup,
  from_items, from_list, text_or_none,
}
use sentinel_drive.Normalization.Dedup.{normalize_text}
use sentinel_drive.Normalization.Keys.{hash_of}
use sentinel_drive.Normalization.Merge.{is_empty as is_void}
use sentinel_drive.Alerts.Entry.{RiskLevel}
use sentinel_drive.Api.Safety.{
  Datetime, aware, naive, Web, SplitResult, safe_url, safe_text, safe_metadata, safe_dict,
}
use sentinel_drive.Ingest.Payload.{Payload, Severity}

-- `a or b` on optional texts.
abbrev pub or_option : Option String → Option String → Option String
or_option none o = o
or_option (some s) o = if s == "" then o else some s

-- `bool(value)` of an optional text, and the text itself.
abbrev pub is_set : Option String → Bool
is_set none = false
is_set (some s) = not (s == "")

abbrev pub text_in : Option String → String
text_in none = ""
text_in (some s) = s

-- `values[0]`, and `None` for no values.
abbrev pub first : List String → Option String
first [] = none
first (v ∷ vs) = some v

abbrev pub severity_value : Severity → String
severity_value Severity.unknown = "unknown"
severity_value Severity.low = "low"
severity_value Severity.medium = "medium"
severity_value Severity.high = "high"
severity_value Severity.critical = "critical"

unfoldable pub severity_rank : Severity → ℕ
severity_rank Severity.unknown = 0
severity_rank Severity.low = 1
severity_rank Severity.medium = 2
severity_rank Severity.high = 3
severity_rank Severity.critical = 4

unfoldable pub risk_level : Severity → RiskLevel
risk_level Severity.critical = RiskLevel.critical
risk_level Severity.high = RiskLevel.high
risk_level Severity.medium = RiskLevel.medium
risk_level Severity.low = RiskLevel.low
risk_level Severity.unknown = RiskLevel.info

-- The loop of `_unique`, on the output so far.
unfoldable pub unique_from : List String → List String → List String
unique_from output [] = output
unique_from output (v ∷ vs) =
    unique_from (if is_empty v || contains output v then output else output ++ (v ∷ [])) vs

unfoldable pub unique : List String → List String
unique values = unique_from [] values

-- `key not in merged or merged[key] in (None, "", [], {})`
abbrev pub is_free : Option Value → Bool
is_free none = true
is_free (some v) = is_void v

-- `_merge_dict`, on the dict merged so far.
unfoldable pub merge_dict : Fields → Fields → Fields
merge_dict merged end = merged
merge_dict merged (field key value incoming) =
    merge_dict (if is_free (lookup key merged) then put merged key value else merged) incoming

unfoldable pub source_name_of : Payload → String
source_name_of p = or_text p.source_name (or_text (text_in p.platform) "External Ingest")

abbrev pub type_without_cve : List String → String
type_without_cve [] = "advisory"
type_without_cve (_ ∷ _) = "exposure"

unfoldable pub intelligence_type_of : Payload → String
intelligence_type_of p =
    if is_set p.cve_id then "vulnerability" else type_without_cve p.attack_surfaces

-- No score, or one above 10, is no CVSS score.
abbrev pub cvss_of : Option ℤ → Option ℤ
cvss_of none = none
cvss_of (some n) = if ltb_ℤ (pos 1000) n then none else some n

unfoldable pub cvss_score : Payload → Option ℤ
cvss_score p = cvss_of p.external_score

abbrev platform_tags : Option String → List String
platform_tags none = []
platform_tags (some s) = if s == "" then [] else lower (strip s) ∷ []

-- The set of tags, without the empty text, as a sorted list.
unfoldable pub tags_of : Payload → List String
tags_of p = sort_by text_le (
    unique (
      "external_ingest"
      ∷ (p.tags ++ (platform_tags p.platform ++ (p.components ++ p.attack_surfaces)))))

abbrev pub texts_value : List String → Value
texts_value xs = list (from_list (map str xs))

-- `{key: value for key, value in items if value}`, and with `value not in (None, [], {})`.
unfoldable pub set_items : List (String × Option String) → Fields
set_items [] = end
set_items ((k, o) ∷ items) =
    let rest = set_items items in if is_set o then field k (text_or_none o) rest else rest

abbrev pub is_missing : Value → Bool
is_missing none_value = true
is_missing (list nil) = true
is_missing (dict end) = true
is_missing _ = false

unfoldable pub present_items : List (String × Value) → Fields
present_items [] = end
present_items ((k, v) ∷ items) =
    let rest = present_items items in if is_missing v then rest else field k v rest

abbrev pub time_or_none : Web → Option Datetime → Value
time_or_none W none = none_value
time_or_none W (some (aware t)) = time t
time_or_none W (some (naive t)) = str (W.str_naive t)

-- What is stored of a raw payload; an empty one counts as none.
abbrev pub raw_or_none : Python → Web → Option Fields → Value
raw_or_none P W none = none_value
raw_or_none P W (some end) = none_value
raw_or_none P W (some (field k v fs)) = safe_metadata W P (dict (field k v fs))

module _ (P : Python) (W : Web) where
  abbrev iso_or_none : Option Datetime → Value
  iso_or_none none = none_value
  iso_or_none (some t) = str (W.isoformat t)

  unfoldable pub metadata_of : Payload → Option String → Fields
  metadata_of p actor_user_id = safe_dict W P (
      present_items (
        ("entry_origin", str "external_ingest")
        ∷ ("platform", text_or_none p.platform)
        ∷ ("cnvd_id", text_or_none p.cnvd_id)
        ∷ ("vendor_advisory_id", text_or_none p.vendor_advisory_id)
        ∷ ("affected_products", texts_value p.affected_products)
        ∷ ("components", texts_value p.components)
        ∷ ("attack_surfaces", texts_value p.attack_surfaces)
        ∷ ("published_at", iso_or_none p.published_at)
        ∷ ("collected_at", iso_or_none p.collected_at)
        ∷ ("submitted_by_user_id", text_or_none actor_user_id)
        ∷ []))

  unfoldable pub external_ids_of : Payload → Fields
  external_ids_of p = safe_dict W P (
      set_items (
        ("external_id", p.external_id)
        ∷ ("cve_id", p.cve_id)
        ∷ ("cnvd_id", p.cnvd_id)
        ∷ ("vendor_advisory_id", p.vendor_advisory_id)
        ∷ ("dedup_key", p.dedup_key)
        ∷ ("content_hash", p.content_hash)
        ∷ []))

  -- The URL of a defragmented text; `none` outside is a ValueError of `urlsplit`.
  unfoldable pub canonical_split : String → Option SplitResult → Option (Option String)
  canonical_split t none = none
  canonical_split t (some parsed) =
      if parsed.scheme == "http" || parsed.scheme == "https"
      then some (
          safe_url W P (
            some (
              W.urlunsplit (lower parsed.scheme) (lower parsed.netloc) (or_text parsed.path "/")
                parsed.query "")))
      else some (safe_text W (some t))

  unfoldable pub canonical_defrag : String → Option String → Option (Option String)
  canonical_defrag t none = none
  canonical_defrag t (some url) = canonical_split t (W.urlsplit url)

  unfoldable pub canonical_url : Option String → Option (Option String)
  canonical_url none = some none
  canonical_url (some value) =
      let t = strip value in if t == "" then some none else canonical_defrag t (W.defrag t)

  unfoldable pub normalized_payload : Payload → String → String → Value
  normalized_payload p source_name source_url = dict (
      from_items (
        ("source_name", str source_name)
        ∷ ("source_url", str source_url)
        ∷ ("platform", text_or_none p.platform)
        ∷ ("title", str p.title)
        ∷ ("summary", str p.summary)
        ∷ ("description", text_or_none p.description)
        ∷ ("external_id", text_or_none p.external_id)
        ∷ ("cve_id", text_or_none p.cve_id)
        ∷ ("cnvd_id", text_or_none p.cnvd_id)
        ∷ ("vendor_advisory_id", text_or_none p.vendor_advisory_id)
        ∷ ("affected_vendor", text_or_none p.affected_vendor)
        ∷ ("affected_products", texts_value p.affected_products)
        ∷ ("components", texts_value p.components)
        ∷ ("attack_surfaces", texts_value p.attack_surfaces)
        ∷ ("severity", str (severity_value p.severity))
        ∷ ("published_at", time_or_none W p.published_at)
        ∷ []))

  unfoldable pub text_signature : Payload → String → String → Value
  text_signature p source_name source_url = dict (
      from_items (
        ("title", str (normalize_text P (str p.title)))
        ∷ ("summary", str (normalize_text P (str p.summary)))
        ∷ ("source_name", str (normalize_text P (str source_name)))
        ∷ ("source_url", str source_url)
        ∷ []))

  unfoldable pub dedup_key_of : Payload → String → String → String → String → String
  dedup_key_of p source_name source_url content_hash normalized_text_hash =
      if is_set p.cve_id
      then "cve:" <> text_in p.cve_id
      else if is_set p.dedup_key
      then "external:" <> hash_of P (("dedup_key", str (text_in p.dedup_key)) ∷ [])
      else if is_set p.external_id
      then "external:"
        <> hash_of P
            (("source_name", str source_name) ∷ ("external_id", str (text_in p.external_id)) ∷ [])
      else if is_set p.content_hash
      then "content:" <> text_in p.content_hash
      else if not (source_url == "")
      then "url:" <> hash_of P (("url", str source_url) ∷ [])
      else "text:" <> or_text normalized_text_hash content_hash
