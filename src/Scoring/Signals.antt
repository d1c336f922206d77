-- ===== src/Scoring/Signals.antt =====
-- The tables and the signals of worker/sentineldrive_worker/scoring/rules.py: what the rules read
-- from a record. A contribution is its number of hundredths.
use Prim.Native.Char.{code}
use Prim.Native.String.{[], ◌∷◌}
use mathlib.Core.List.{[], ◌∷◌}
use sentinel_drive.Prelude.{
  ℕ, String, ◌<>◌, Bool, true, false, ◌&&◌, ◌||◌, Option, none, some, List, map, ◌++◌, any,
  contains, ◌==◌, string_Eq, nat_Eq, option_Eq, leb, if◌then◌else◌, ℤ, pos, negsuc,
}
use sentinel_drive.Text.{join, is_in, upper, dashes_to_underscores, spaces_to_underscores, or_text}
use sentinel_drive.Value.{
  Python, Value, none_value, str, list, dict, Values, nil, cons, Fields, end, field, get, text,
  truthy, without, to_list, field_values,
}
use sentinel_drive.Value.Row.{Row}
use sentinel_drive.Normalization.Dedup.{normalize_text}

abbrev pub rule_version : String
rule_version = "fixed-risk-v1"

-- The value of a key of a dict whose keys are texts.
unfoldable pub weight : String → List (String × ℤ) → Option ℤ
weight k [] = none
weight k ((j, w) ∷ rest) = if j == k then some w else weight k rest

abbrev pub risk_levels : List (ℤ × String)
risk_levels =
    (pos 9000, "critical") ∷ (pos 7000, "high") ∷ (pos 4000, "medium") ∷ (pos 0, "low") ∷ []

abbrev pub severity_fallback : List (String × ℤ)
severity_fallback =
    ("critical", pos 6200)
    ∷ ("high", pos 5000)
    ∷ ("medium", pos 3200)
    ∷ ("low", pos 1500)
    ∷ ("unknown", pos 1000)
    ∷ []

abbrev pub remote_surfaces : List String
remote_surfaces =
    "app" ∷ "tbox" ∷ "ota" ∷ "v2x" ∷ "charging" ∷ "cloud_api" ∷ "bluetooth" ∷ "wifi" ∷ "cellular"
    ∷ []

abbrev pub critical_component_weights : List (String × ℤ)
critical_component_weights =
    ("tbox", pos 1400)
    ∷ ("ota", pos 1400)
    ∷ ("can", pos 1400)
    ∷ ("v2x", pos 1400)
    ∷ ("cloud_api", pos 1300)
    ∷ ("app", pos 1200)
    ∷ ("charging", pos 1200)
    ∷ ("cellular", pos 1000)
    ∷ ("wifi", pos 800)
    ∷ ("bluetooth", pos 800)
    ∷ ("ivi", pos 700)
    ∷ ("usb", pos 400)
    ∷ []

abbrev pub known_exploited_tags : List String
known_exploited_tags = "cisa-kev" ∷ "kev" ∷ "known_exploited" ∷ "known-exploited" ∷ []

abbrev pub poc_terms : List String
poc_terms =
    "proof of concept" ∷ "public poc" ∷ "poc available" ∷ "exploit code" ∷ "metasploit"
    ∷ "exploit-db" ∷ "github.com" ∷ []

abbrev pub remote_terms : List String
remote_terms =
    "remote" ∷ "network exploitable" ∷ "network-exploitable" ∷ "internet facing" ∷ "internet-facing"
    ∷ "over the air" ∷ "over-the-air" ∷ "cloud api" ∷ "mobile app" ∷ "cellular" ∷ "v2x" ∷ []

abbrev pub unauthenticated_terms : List String
unauthenticated_terms =
    "unauthenticated" ∷ "without authentication" ∷ "no authentication" ∷ "authentication bypass"
    ∷ "auth bypass" ∷ []

abbrev pub authenticated_terms : List String
authenticated_terms =
    "authenticated user" ∷ "requires authentication" ∷ "authentication required"
    ∷ "privileges required" ∷ []

abbrev pub multi_vendor_terms : List String
multi_vendor_terms =
    "multi vendor" ∷ "multi-vendor" ∷ "multiple vendors" ∷ "common component"
    ∷ "third party component" ∷ "third-party component" ∷ "supply chain" ∷ "shared component"
    ∷ "widely used" ∷ []

abbrev pub common_component_terms : List String
common_component_terms =
    "openssl" ∷ "linux" ∷ "android" ∷ "autosar" ∷ "bluetooth stack" ∷ "wifi chipset"
    ∷ "wi-fi chipset" ∷ "baseband" ∷ "qualcomm" ∷ "evse" ∷ "charging station" ∷ []

-- `cvss_metric`: the regular expression `(?:^|/)KEY:([A-Z])(?:/|$)`, whose `$` also matches before
-- a line feed at the end.
abbrev ends_metric : String → Bool
ends_metric [] = true
ends_metric (c ∷ s) = code c == b'/' || (code c == 10 && s == "")

abbrev is_upper : ℕ → Bool
is_upper n = leb 65 n && leb n 90

unfoldable pub letter_then_end : String → Option String
letter_then_end [] = none
letter_then_end (c ∷ s) = if is_upper (code c) && ends_metric s then some (c ∷ []) else none

unfoldable pub strip_prefix : String → String → Option String
strip_prefix [] s = some s
strip_prefix (c ∷ t) [] = none
strip_prefix (c ∷ t) (d ∷ s) = if code c == code d then strip_prefix t s else none

abbrev bind_text : Option String → (String → Option String) → Option String
bind_text none f = none
bind_text (some s) f = f s

abbrev first_text : Option String → Option String → Option String
first_text none p = p
first_text (some s) p = some s

unfoldable pub metric_at : String → String → Option String
metric_at key s = bind_text (strip_prefix (key <> ":") s) letter_then_end

unfoldable pub metric_after_slash : String → String → Option String
metric_after_slash key [] = none
metric_after_slash key (c ∷ s) =
    let here = if code c == b'/' then metric_at key s else none in
    first_text here (metric_after_slash key s)

unfoldable pub search_metric : String → String → Option String
search_metric key s = first_text (metric_at key s) (metric_after_slash key s)

unfoldable pub cvss_metric : Value → String → Option String
cvss_metric (str v) key = search_metric key (upper v)
cvss_metric _ key = none

-- `value.get("scoring")` left out, and no dict at all read as an empty one.
unfoldable pub metadata_without_scoring : Value → Fields
metadata_without_scoring (dict fs) = without "scoring" fs
metadata_without_scoring _ = end

-- `item not in (None, "")`
abbrev pub is_present : Value → Bool
is_present none_value = false
is_present (str s) = if s == "" then false else true
is_present _ = true

module _ (P : Python) where
  unfoldable pub normalize_key : Value → String
  normalize_key v = dashes_to_underscores (normalize_text P v)

  unfoldable pub present_texts : List Value → List String
  present_texts [] = []
  present_texts (v ∷ vs) =
      let rest = present_texts vs in if is_present v then text P v ∷ rest else rest

  unfoldable pub list_values : Value → List String
  list_values none_value = []
  list_values (str s) = s ∷ []
  list_values (dict fs) = present_texts (field_values fs)
  list_values (list vs) = present_texts (to_list vs)
  list_values v = text P v ∷ []

  unfoldable mutual
    pub flatten_value : Value → String
    flatten_value none_value = ""
    flatten_value (list vs) = join " " (flatten_items vs)
    flatten_value (dict fs) = join " " (flatten_fields fs)
    flatten_value v = text P v

    flatten_items : Values → List String
    flatten_items nil = []
    flatten_items (cons v vs) = flatten_value v ∷ flatten_items vs

    flatten_fields : Fields → List String
    flatten_fields end = []
    flatten_fields (field k v fs) = flatten_value v ∷ flatten_fields fs

  -- A set of tags, read only through `in` and `intersection`.
  unfoldable pub normalized_tags : Value → List String
  normalized_tags v =
      map (λ item. spaces_to_underscores (normalize_text P (str item))) (list_values v)

  unfoldable pub has_any_term : String → List String → Bool
  has_any_term s terms =
      let haystack = normalize_text P (str s) in any (λ term. is_in term haystack) terms

  unfoldable pub searchable_text : Row → Fields → String
  searchable_text row metadata = normalize_text P (
      str (
        join " " (
          map flatten_value (
            row "title"
            ∷ row "summary"
            ∷ row "source_names"
            ∷ row "source_urls"
            ∷ row "external_ids"
            ∷ row "affected_vendor"
            ∷ row "affected_product"
            ∷ row "vehicle_component"
            ∷ row "attack_surface"
            ∷ row "exploit_status"
            ∷ row "tags"
            ∷ dict metadata
            ∷ []))))

  unfoldable pub known_exploited : Row → List String → Fields → Bool
  known_exploited row tags metadata =
      if normalize_key (row "exploit_status") == "exploited"
      then true
      else if any (contains tags) known_exploited_tags
      then true
      else let source_names = map (λ v. normalize_key (str v)) (list_values (row "source_names")) in
        if contains source_names "cisa-kev" || contains source_names "cisa_kev"
        then true
        else any (λ key. truthy (get metadata key))
            ("date_added" ∷ "known_ransomware_campaign_use" ∷ "vulnerability_name" ∷ [])

  unfoldable pub is_remote : String → Bool
  is_remote key = contains remote_surfaces key

  unfoldable pub remote_exploitability_signal : Row → String → Option (String × ℤ)
  remote_exploitability_signal row signal_text =
      let attack_surface = normalize_key (row "attack_surface") in
      let component = normalize_key (row "vehicle_component") in
      let vector_access = cvss_metric (row "cvss_vector") "AV" in
      if vector_access == some "N"
      then some ("network", pos 1000)
      else if is_remote attack_surface || is_remote component
      then some (or_text attack_surface component, pos 1000)
      else if vector_access == some "A"
      then some ("adjacent_network", pos 700)
      else if has_any_term signal_text remote_terms
      then some ("text", pos 800)
      else none

  unfoldable pub authentication_signal : Row → String → Option (String × ℤ)
  authentication_signal row signal_text =
      let privileges_required = cvss_metric (row "cvss_vector") "PR" in
      if privileges_required == some "N"
      then some ("none_required", pos 800)
      else if has_any_term signal_text unauthenticated_terms
      then some ("none_required", pos 800)
      else if privileges_required == some "L"
      then some ("low_privilege_required", pos 300)
      else if privileges_required == some "H"
      then some ("high_privilege_required", negsuc 399)
      else if has_any_term signal_text authenticated_terms
      then some ("authentication_required", negsuc 399)
      else none

  abbrev pub is_weighted : String → Bool
  is_weighted key = elim (weight key critical_component_weights) [ none ↦ false | some _ ↦ true ]

  unfoldable pub vehicle_component_signal : Row → Option (String × ℤ)
  vehicle_component_signal row =
      let component = normalize_key (row "vehicle_component") in
      let attack_surface = normalize_key (row "attack_surface") in
      let key = if is_weighted component then component else attack_surface in
      elim (weight key critical_component_weights) [ none ↦ none | some w ↦ some (key, w) ]

  unfoldable pub multi_vendor_or_common_component : Row → String → Bool
  multi_vendor_or_common_component row signal_text =
      let vendor = normalize_text P (row "affected_vendor") in
      let product = normalize_text P (row "affected_product") in
      if contains
        ("multiple" ∷ "various" ∷ "multi vendor" ∷ "multi-vendor" ∷ "multiple vendors" ∷ []) vendor
      then true
      else if has_any_term (join " " (vendor ∷ product ∷ signal_text ∷ []))
          (multi_vendor_terms ++ common_component_terms)
      then true
      else false
