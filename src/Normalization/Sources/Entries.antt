-- ===== src/Normalization/Sources/Entries.antt =====
-- The normalisers of manual entries, of ingested records and of recalls,
-- worker/sentineldrive_worker/normalization/normalizers.py. What stands where a list is read and is
-- none counts as the empty list.
use mathlib.Core.List.{[], ◌∷◌}
use sentinel_drive.Prelude.{
  String, ◌<>◌, Bool, false, ◌&&◌, Option, none, some, List, ◌++◌, ◌⊎◌, inl, inr, ◌==◌, string_Eq,
  if◌then◌else◌,
}
use sentinel_drive.Value.{
  Python, Value, none_value, bool, str, Fields, get, or_else, dict_or_empty, text, truthy,
  from_items, text_or_none,
}
use sentinel_drive.Value.Row.{Row}
use sentinel_drive.Sanitize.{Error}
use sentinel_drive.Normalization.Keys.{UrlParse, canonical_url, external_ingest_dedup_key}
use sentinel_drive.Normalization.Numbers.{CharClasses, find_cve, normalize_cve, normalize_cwe}
use sentinel_drive.Normalization.Hints.{infer_vehicle_component, infer_attack_surface}
use sentinel_drive.Normalization.Record.{NormalizedRecord}
use sentinel_drive.Normalization.Sources.{Details, details, base_record}
use sentinel_drive.Normalization.Cleaning.{◌>>=◌}
use sentinel_drive.Normalization.Cleaning.{
  normalization_error, is_present, or_default, clean_optional, clean_title, float_or_none,
  severity_value, compact_tags, category_to_intelligence_type, manual_dedup_key,
  risk_level_from_severity,
}
use sentinel_drive.Normalization.Sources.Feeds.{metadata_of, list_items, required}

-- `value == s`
abbrev pub equals_text : Value → String → Bool
equals_text (str t) s = t == s
equals_text _ s = false

-- `raw.get("raw_content") if isinstance(raw.get("raw_content"), dict) else {}`
abbrev pub content_of : Row → Fields
content_of raw = dict_or_empty (raw "raw_content")

-- `{key: value for key, value in (…) if value}`
abbrev pub present_fields : List (String × Option String) → List (String × Value)
present_fields [] = []
present_fields ((key, none) ∷ rest) = present_fields rest
present_fields ((key, some s) ∷ rest) =
    let fields = present_fields rest in if s == "" then fields else (key, str s) ∷ fields

-- A row that the backend has normalised when it was written.
abbrev pub already_normalized : String → Row → Bool
already_normalized origin raw =
    equals_text (get (metadata_of raw) "entry_origin") origin
    && equals_text (raw "processing_status") "normalized"

abbrev pub or_second : Option String → Option String → Option String
or_second none b = b
or_second (some s) b = if s == "" then b else some s

abbrev pub with_key : (NormalizedRecord → String) → NormalizedRecord → NormalizedRecord
with_key f r = record r { dedup_key = f r }

module _ (P : Python) where
  -- `xs[0] if xs else None`
  abbrev pub first_text : List Value → Option String
  first_text [] = none
  first_text (none_value ∷ vs) = none
  first_text (v ∷ vs) = some (text P v)

  module _ (U : UrlParse) (K : CharClasses) where
    unfoldable pub manual_category : Row → String
    manual_category raw =
        or_default
          (clean_optional P (
            or_else (get (metadata_of raw) "manual_entry_category")
              (get (content_of raw) "category")))
          "advisory"

    unfoldable pub manual_cve : Row → Option String
    manual_cve raw =
        normalize_cve K P
          (or_else (raw "external_id") (or_else (raw "title") (get (content_of raw) "cve_id")))

    unfoldable pub manual_details : Row → String → String → Details
    manual_details raw category title =
        let content = content_of raw in
        let is_lead = category == "research_lead" in
        record (details title (clean_optional P (or_else (raw "summary") (get content "summary")))
          (category_to_intelligence_type category)) {
            cve_id = manual_cve raw;
            cwe_id = normalize_cwe K P (get content "cwe_id");
            severity = severity_value P (get content "severity");
            affected_vendor = clean_optional P (get content "affected_vendor");
            affected_product = clean_optional P (get content "affected_product");
            affected_version = clean_optional P (get content "affected_version");
            vehicle_component = clean_optional P (get content "vehicle_component");
            attack_surface = clean_optional P (get content "attack_surface");
            exploit_status = or_default (clean_optional P (get content "exploit_status")) "unknown";
            confidence = or_default (clean_optional P (get content "confidence")) "medium";
            tags = compact_tags P (
                (str "manual"
                  ∷ str category
                  ∷ (if is_lead then str "research_lead" else none_value)
                  ∷ [])
                ++ list_items (get content "tags"));
            status = if is_lead then "under_review" else "active";
            metadata =
                from_items
                  (("entry_origin", str "manual") ∷ ("manual_entry_category", str category) ∷ []);
          }

    unfoldable pub manual_normalizer : Row → NormalizedRecord ⊎ Error
    manual_normalizer raw =
        let category = manual_category raw in
        let source_name = text P (or_else (raw "source_name") (str "Manual Entry")) in
        let source_url = text P (or_else (raw "source_url") (str "manual://entry")) in
        if already_normalized "manual" raw
        then inr (
            normalization_error
              "manual raw record is already normalized by backend manual-entry API")
        else clean_title P (or_else (raw "title") (get (content_of raw) "title")) raw >>= λ title.
            base_record P U "ManualNormalizer" raw (manual_details raw category title) >>= λ r.
            inl (
              with_key
                (λ r. manual_dedup_key P category (manual_cve raw) r.title source_name source_url)
                r)

    -- `normalize_cve(metadata.get("cve_id")) or find_cve(…)`
    unfoldable pub ingested_cve : Row → Option String
    ingested_cve raw =
        or_second (normalize_cve K P (get (metadata_of raw) "cve_id"))
          (find_cve K P (raw "external_id" ∷ raw "title" ∷ raw "summary" ∷ raw "source_url" ∷ []))

    unfoldable pub ingested_id : Row → Option String
    ingested_id raw =
        clean_optional P (or_else (get (metadata_of raw) "external_id") (raw "external_id"))

    unfoldable pub ingested_details : Row → String → Details
    ingested_details raw title =
        let metadata = metadata_of raw in
        let cve_id = ingested_cve raw in
        let components = list_items (get metadata "components") in
        let surfaces = list_items (get metadata "attack_surfaces") in
        record (details title (clean_optional P (raw "summary"))
          (if is_present cve_id then "vulnerability" else exposure_or_advisory surfaces)) {
            cve_id = cve_id;
            severity = severity_value P (get metadata "severity");
            affected_vendor = clean_optional P (get metadata "affected_vendor");
            affected_product = first_text (list_items (get metadata "affected_products"));
            vehicle_component = infer_vehicle_component P components;
            attack_surface = infer_attack_surface P surfaces;
            tags = compact_tags P (
                (str "external_ingest" ∷ get metadata "platform" ∷ []) ++ (components ++ surfaces));
            metadata = from_items (
                ("entry_origin", str "external_ingest")
                ∷ ("platform", get metadata "platform")
                ∷ ("cnvd_id", get metadata "cnvd_id")
                ∷ ("vendor_advisory_id", get metadata "vendor_advisory_id")
                ∷ ("published_at", get metadata "published_at")
                ∷ ("collected_at", get metadata "collected_at")
                ∷ []);
          }
      where
        exposure_or_advisory : List Value → String
        exposure_or_advisory [] = "advisory"
        exposure_or_advisory (v ∷ vs) = "exposure"

    -- The fields that are set after `base_record`.
    unfoldable pub with_ingest_fields : Row → NormalizedRecord → NormalizedRecord
    with_ingest_fields raw r =
        let metadata = metadata_of raw in
        let cve_id = ingested_cve raw in
        let key = clean_optional P (get metadata "dedup_key") in
        let content_hash = clean_optional P (raw "content_hash") in
        record r {
          risk_score = float_or_none P (get metadata "external_score");
          risk_level = risk_level_from_severity (severity_value P (get metadata "severity"));
          external_ids = from_items (
              present_fields (
                ("external_id", ingested_id raw)
                ∷ ("cve_id", cve_id)
                ∷ ("cnvd_id", clean_optional P (get metadata "cnvd_id"))
                ∷ ("vendor_advisory_id", clean_optional P (get metadata "vendor_advisory_id"))
                ∷ ("dedup_key", key)
                ∷ ("content_hash", content_hash)
                ∷ []));
          dedup_key =
              external_ingest_dedup_key P cve_id key (ingested_id raw)
                (text P (or_else (raw "source_name") (str "External Ingest")))
                (canonical_url P U (raw "source_url")) content_hash (some r.normalized_text_hash);
        }

    unfoldable pub external_ingest_normalizer : Row → NormalizedRecord ⊎ Error
    external_ingest_normalizer raw =
        if already_normalized "external_ingest" raw
        then inr (
            normalization_error
              "external ingest raw record is already normalized by backend ingest API")
        else clean_title P (raw "title") raw >>= λ title.
            base_record P U "ExternalIngestNormalizer" raw (ingested_details raw title) >>= λ r.
            inl (with_ingest_fields raw r)

    unfoldable pub recall_details : Row → String → String → Details
    recall_details raw campaign title =
        let metadata = metadata_of raw in
        let component = clean_optional P (get metadata "component") in
        let summary = clean_optional P (or_else (raw "summary") (raw "snippet")) in
        let is_software = truthy (get metadata "software_related") in
        let words = text_or_none component ∷ str title ∷ text_or_none summary ∷ [] in
        record (details title summary "incident") {
          affected_vendor = clean_optional P (get metadata "make");
          affected_product = clean_optional P (get metadata "model");
          vehicle_component = infer_vehicle_component P words;
          attack_surface = infer_attack_surface P words;
          tags = compact_tags P (
              str "recall"
              ∷ (if is_software then str "software_related" else none_value)
              ∷ str "nhtsa"
              ∷ get metadata "make"
              ∷ get metadata "model"
              ∷ []);
          metadata = from_items (
              ("campaign_number", str campaign)
              ∷ ("make", get metadata "make")
              ∷ ("model", get metadata "model")
              ∷ ("model_year", get metadata "model_year")
              ∷ ("manufacturer", get metadata "manufacturer")
              ∷ ("component", text_or_none component)
              ∷ ("report_received_date", get metadata "report_received_date")
              ∷ ("recall_type", get metadata "recall_type")
              ∷ ("software_related", bool is_software)
              ∷ ("over_the_air_update", get metadata "over_the_air_update")
              ∷ []);
        }

    unfoldable pub recall_normalizer : Row → NormalizedRecord ⊎ Error
    recall_normalizer raw =
        let campaign =
          or_second (clean_optional P (get (metadata_of raw) "campaign_number"))
            (clean_optional P (raw "external_id")) in
        required P U K "NHTSA recall raw record missing campaign number" campaign >>= λ campaign.
        clean_title P (raw "title") raw >>= λ title.
        base_record P U "RecallNormalizer" raw (recall_details raw campaign title) >>= λ r.
        inl (with_key (λ r. "recall:campaign:" <> campaign) r)
