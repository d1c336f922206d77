-- ===== src/Normalization/Sources/Feeds.antt =====
-- The normalisers of NVD, CISA KEV, RSS feeds and vendor advisories, and the one for other sources,
-- worker/sentineldrive_worker/normalization/normalizers.py.
use Prim.Native.Char.{code}
use Prim.Native.String.{[], ◌∷◌}
use mathlib.Core.List.{[], ◌∷◌}
use sentinel_drive.Prelude.{
  ℕ, zero, suc, String, ◌||◌, Option, none, some, List, ◌⊎◌, inl, inr, ◌==◌, nat_Eq, string_Eq,
  if◌then◌else◌,
}
use sentinel_drive.Text.{has_prefix}
use sentinel_drive.Value.{
  Python, Value, none_value, str, list, dict, nil, Fields, get, has_key, or_else, dict_or_empty,
  to_list, truthy, from_items, text_or_none,
}
use sentinel_drive.Value.Row.{Row}
use sentinel_drive.Sanitize.{Error}
use sentinel_drive.Normalization.Keys.{UrlParse}
use sentinel_drive.Normalization.Numbers.{CharClasses, find_cve, normalize_cwe}
use sentinel_drive.Normalization.Hints.{infer_vehicle_component, infer_attack_surface}
use sentinel_drive.Normalization.Record.{NormalizedRecord}
use sentinel_drive.Normalization.Sources.{Details, details, base_record}
use sentinel_drive.Normalization.Cleaning.{◌>>=◌}
use sentinel_drive.Normalization.Cleaning.{
  normalization_error, is_present, clean_optional, clean_title, float_or_none, severity_value,
  exploit_status_from_text, ransomware_tag, compact_tags, joined,
}

-- `dict(raw.get("metadata") or {})`, and a value if it is a dict.
abbrev pub metadata_of : Row → Fields
metadata_of raw = dict_or_empty (raw "metadata")

-- The first value that is there.
unfoldable pub first_some {ℓ} : {A : Type ℓ} → (A → Option String) → List A → Option String
first_some f [] = none
first_some f (x ∷ xs) = let rest = first_some f xs in elim (f x) [ none ↦ rest | some y ↦ some y ]

-- `value if isinstance(value, list) else []`
abbrev pub list_items : Value → List Value
list_items (list vs) = to_list vs
list_items _ = []

abbrev pub on_head : (String → String) → List String → List String
on_head f [] = []
on_head f (w ∷ ws) = f w ∷ ws

-- `s.split(":")`
unfoldable pub split_colon : String → List String
split_colon [] = "" ∷ []
split_colon (c ∷ s) =
    let rest = split_colon s in if code c == b':' then "" ∷ rest else on_head (λ w. c ∷ w) rest

unfoldable pub nth_part : ℕ → List String → Option String
nth_part n [] = none
nth_part zero (w ∷ ws) = if w == "*" || w == "-" || w == "" then none else some w
nth_part (suc n) (w ∷ ws) = nth_part n ws

-- The part of a CPE criteria text.
abbrev pub cpe_part : ℕ → Value → Option String
cpe_part index (str s) = if has_prefix "cpe:" s then nth_part index (split_colon s) else none
cpe_part index _ = none

-- `first_cpe_part`, with the index of the part.
unfoldable pub first_cpe_part : Fields → ℕ → Option String
unfolding first_some
first_cpe_part cve index =
    first_some
      (λ configuration.
        first_some
          (λ node.
            first_some (λ match. cpe_part index (get (dict_or_empty match) "criteria"))
              (list_items (get (dict_or_empty node) "cpeMatch")))
          (list_items (get (dict_or_empty configuration) "nodes")))
      (list_items (get cve "configurations"))

-- `cve.get("references", {}).get("referenceData", [])`
abbrev pub references_of : Value → Value
references_of (dict fs) = if has_key fs "referenceData" then get fs "referenceData" else list nil
references_of _ = list nil

abbrev pub vulnerability_or_advisory : Option String → String
vulnerability_or_advisory cve_id = if is_present cve_id then "vulnerability" else "advisory"

module _ (P : Python) (U : UrlParse) (K : CharClasses) where
  -- The details of a record of NVD with its CVE number.
  unfoldable pub nvd_details : Row → String → String → Details
  nvd_details raw cve_id title =
      let metadata = metadata_of raw in
      let cve = dict_or_empty (get (dict_or_empty (raw "raw_content")) "cve") in
      let cvss = dict_or_empty (get metadata "cvss") in
      let cwe_id = normalize_cwe K P (get metadata "cwe") in
      let references = references_of (get cve "references") in
      record (details title (clean_optional P (raw "summary")) "vulnerability") {
        cve_id = some cve_id;
        cwe_id = cwe_id;
        cvss_score = float_or_none P (get cvss "base_score");
        cvss_vector = clean_optional P (get cvss "vector_string");
        severity = severity_value P (get cvss "base_severity");
        affected_vendor = first_cpe_part cve 3;
        affected_product = first_cpe_part cve 4;
        affected_version = first_cpe_part cve 5;
        vehicle_component =
            infer_vehicle_component P (raw "title" ∷ raw "summary" ∷ references ∷ []);
        attack_surface = infer_attack_surface P (raw "title" ∷ raw "summary" ∷ references ∷ []);
        exploit_status = exploit_status_from_text P (get metadata "vuln_status" ∷ references ∷ []);
        confidence = "high";
        tags = compact_tags P (
            str "nvd"
            ∷ str "cve"
            ∷ str cve_id
            ∷ text_or_none cwe_id
            ∷ get metadata "vuln_status"
            ∷ []);
        metadata = from_items (
            ("published", get metadata "published")
            ∷ ("last_modified", get metadata "last_modified")
            ∷ ("vuln_status", get metadata "vuln_status")
            ∷ ("reference_count", get metadata "reference_count")
            ∷ []);
      }

  unfoldable pub kev_details : Row → String → String → Details
  kev_details raw cve_id title =
      let metadata = metadata_of raw in
      let cwe_id = normalize_cwe K P (get metadata "cwes") in
      let ransomware = clean_optional P (get metadata "known_ransomware_campaign_use") in
      record (details title (clean_optional P (raw "summary")) "vulnerability") {
        cve_id = some cve_id;
        cwe_id = cwe_id;
        affected_vendor = clean_optional P (get metadata "vendor_project");
        affected_product = clean_optional P (get metadata "product");
        vehicle_component =
            infer_vehicle_component P (raw "title" ∷ raw "summary" ∷ dict metadata ∷ []);
        attack_surface = infer_attack_surface P (raw "title" ∷ raw "summary" ∷ dict metadata ∷ []);
        exploit_status = "exploited";
        confidence = "high";
        tags = compact_tags P (
            str "cisa-kev"
            ∷ str "kev"
            ∷ str "known_exploited"
            ∷ str "cve"
            ∷ str cve_id
            ∷ text_or_none cwe_id
            ∷ ransomware_tag P ransomware
            ∷ []);
        metadata = from_items (
            ("date_added", get metadata "date_added")
            ∷ ("due_date", get metadata "due_date")
            ∷ ("known_ransomware_campaign_use", text_or_none ransomware)
            ∷ ("notes", get metadata "notes")
            ∷ ("vulnerability_name", get metadata "vulnerability_name")
            ∷ []);
      }

  -- `if not cve_id: raise NormalizationError(message)`
  abbrev pub required : String → Option String → String ⊎ Error
  required message none = inr (normalization_error message)
  required message (some s) = if s == "" then inr (normalization_error message) else inl s

  unfoldable pub nvd_normalizer : Row → NormalizedRecord ⊎ Error
  unfolding nvd_details
  nvd_normalizer raw =
      let cve = dict_or_empty (get (dict_or_empty (raw "raw_content")) "cve") in
      let found =
        find_cve K P (raw "external_id" ∷ get cve "id" ∷ raw "title" ∷ raw "summary" ∷ []) in
      required "NVD raw record missing CVE ID" found >>= λ cve_id.
      clean_title P (or_else (raw "title") (str cve_id)) raw >>= λ title.
      base_record P U "NvdNormalizer" raw (nvd_details raw cve_id title)

  unfoldable pub kev_normalizer : Row → NormalizedRecord ⊎ Error
  unfolding kev_details
  kev_normalizer raw =
      let found = find_cve K P (raw "external_id" ∷ raw "title" ∷ raw "summary" ∷ []) in
      required "CISA KEV raw record missing CVE ID" found >>= λ cve_id.
      clean_title P (or_else (raw "title") (str cve_id)) raw >>= λ title.
      base_record P U "CisaKevNormalizer" raw (kev_details raw cve_id title)

  -- The texts of five columns, joined.
  unfoldable pub row_text : Row → String
  row_text raw =
      joined P
        (raw "title" ∷ raw "summary" ∷ raw "snippet" ∷ raw "source_url" ∷ raw "external_id" ∷ [])

  unfoldable pub rss_normalizer : Row → NormalizedRecord ⊎ Error
  rss_normalizer raw =
      let metadata = metadata_of raw in
      let words = str (row_text raw) in
      let cve_id = find_cve K P (words ∷ []) in
      clean_title P (raw "title") raw >>= λ title.
      base_record P U "RssNormalizer" raw
        (record (details title (clean_optional P (or_else (raw "summary") (raw "snippet")))
          (vulnerability_or_advisory cve_id)) {
            cve_id = cve_id;
            cwe_id = normalize_cwe K P words;
            vehicle_component = infer_vehicle_component P (words ∷ []);
            attack_surface = infer_attack_surface P (words ∷ []);
            exploit_status = exploit_status_from_text P (words ∷ []);
            tags =
                compact_tags P
                  (str "rss" ∷ str "feed" ∷ get metadata "feed_name" ∷ text_or_none cve_id ∷ []);
            metadata = from_items (
                ("feed_name", get metadata "feed_name")
                ∷ ("feed_url", get metadata "feed_url")
                ∷ ("published", get metadata "published")
                ∷ ("updated", get metadata "updated")
                ∷ []);
          })

  unfoldable pub vendor_normalizer : Row → NormalizedRecord ⊎ Error
  vendor_normalizer raw =
      let metadata = metadata_of raw in
      let words = str (
        joined P
          (raw "title" ∷ raw "summary" ∷ raw "snippet" ∷ raw "source_url" ∷ dict metadata ∷ [])) in
      let cve_id = find_cve K P (words ∷ []) in
      clean_title P (raw "title") raw >>= λ title.
      base_record P U "VendorAdvisoryNormalizer" raw
        (record (details title (clean_optional P (or_else (raw "summary") (raw "snippet")))
          (vulnerability_or_advisory cve_id)) {
            cve_id = cve_id;
            cwe_id = normalize_cwe K P words;
            affected_vendor = clean_optional P (get metadata "vendor");
            vehicle_component = infer_vehicle_component P (words ∷ []);
            attack_surface = infer_attack_surface P (words ∷ []);
            exploit_status = exploit_status_from_text P (words ∷ []);
            tags = compact_tags P (
                str "vendor_advisory"
                ∷ get metadata "vendor"
                ∷ get metadata "verification_status"
                ∷ (if truthy (get metadata "is_pdf") then str "pdf" else none_value)
                ∷ text_or_none cve_id
                ∷ []);
            metadata = from_items (
                ("vendor", get metadata "vendor")
                ∷ ("endpoint_url", get metadata "endpoint_url")
                ∷ ("verification_status", get metadata "verification_status")
                ∷ ("content_type", get metadata "content_type")
                ∷ ("is_pdf", get metadata "is_pdf")
                ∷ []);
          })

  unfoldable pub fallback_normalizer : Row → NormalizedRecord ⊎ Error
  fallback_normalizer raw =
      let words = str (row_text raw) in
      let cve_id = find_cve K P (words ∷ []) in
      clean_title P (raw "title") raw >>= λ title.
      base_record P U "FallbackNormalizer" raw
        (record (details title (clean_optional P (or_else (raw "summary") (raw "snippet")))
          (vulnerability_or_advisory cve_id)) {
            cve_id = cve_id;
            cwe_id = normalize_cwe K P words;
            vehicle_component = infer_vehicle_component P (words ∷ []);
            attack_surface = infer_attack_surface P (words ∷ []);
            tags = compact_tags P (str "raw_fallback" ∷ text_or_none cve_id ∷ []);
            metadata =
                from_items (("fallback_reason", str "source-specific normalizer unavailable") ∷ []);
          })
