-- ===== src/Normalization/Record.antt =====
-- `NormalizedRecord` and `SourceAttribution` of worker/sentineldrive_worker/normalization/models.py,
-- and the columns that a record is stored in.
use sentinel_drive.Prelude.{ℕ, String, Option, none, some, List, [], ◌∷◌, map, ℤ}
use sentinel_drive.Value.{
  Value, none_value, str, float, time, list, dict, Fields, from_list, text_or_none,
}
use sentinel_drive.Normalization.Unique.{unique_values}

pub record SourceAttribution : Type 0 where
  pub source_id : Value
  pub raw_intelligence_id : Value
  pub source_name : String
  pub source_url : String
  pub external_id : Option String
  pub first_seen_at : ℕ
  pub last_seen_at : ℕ

pub record NormalizedRecord : Type 0 where
  pub title : String
  pub summary : Option String
  pub intelligence_type : String
  pub dedup_key : String
  pub source_names : List String
  pub source_urls : List String
  pub canonical_source_url : Option String
  pub external_ids : Fields
  pub first_seen_at : ℕ
  pub last_seen_at : ℕ
  pub normalized_text_hash : String
  pub raw_intelligence_id : Value
  pub cve_id : Option String
  pub cwe_id : Option String
  pub cvss_score : Option ℤ
  pub cvss_vector : Option String
  pub severity : String
  pub affected_vendor : Option String
  pub affected_product : Option String
  pub affected_version : Option String
  pub vehicle_component : Option String
  pub attack_surface : Option String
  pub exploit_status : String
  pub confidence : String
  pub risk_score : Option ℤ
  pub risk_level : String
  pub tags : List String
  pub processing_status : String
  pub status : String
  pub metadata : Fields
  pub attribution : Option SourceAttribution

abbrev pub number_value : Option ℤ → Value
number_value none = none_value
number_value (some n) = float n

abbrev pub text_values : List String → List Value
text_values = map str

abbrev pub list_value : List Value → Value
list_value vs = list (from_list vs)

unfoldable pub normalized_common_values : NormalizedRecord → List (String × Value)
normalized_common_values incoming =
    ("title", str incoming.title)
    ∷ ("summary", text_or_none incoming.summary)
    ∷ ("intelligence_type", str incoming.intelligence_type)
    ∷ ("source_names", list_value (unique_values (text_values incoming.source_names)))
    ∷ ("source_urls", list_value (unique_values (text_values incoming.source_urls)))
    ∷ ("canonical_source_url", text_or_none incoming.canonical_source_url)
    ∷ ("external_ids", dict incoming.external_ids)
    ∷ ("cve_id", text_or_none incoming.cve_id)
    ∷ ("cwe_id", text_or_none incoming.cwe_id)
    ∷ ("cvss_score", number_value incoming.cvss_score)
    ∷ ("cvss_vector", text_or_none incoming.cvss_vector)
    ∷ ("severity", str incoming.severity)
    ∷ ("affected_vendor", text_or_none incoming.affected_vendor)
    ∷ ("affected_product", text_or_none incoming.affected_product)
    ∷ ("affected_version", text_or_none incoming.affected_version)
    ∷ ("vehicle_component", text_or_none incoming.vehicle_component)
    ∷ ("attack_surface", text_or_none incoming.attack_surface)
    ∷ ("exploit_status", str incoming.exploit_status)
    ∷ ("confidence", str incoming.confidence)
    ∷ ("risk_score", number_value incoming.risk_score)
    ∷ ("risk_level", str incoming.risk_level)
    ∷ ("tags", list_value (unique_values (text_values incoming.tags)))
    ∷ ("first_seen_at", time incoming.first_seen_at)
    ∷ ("last_seen_at", time incoming.last_seen_at)
    ∷ ("dedup_key", str incoming.dedup_key)
    ∷ ("normalized_text_hash", str incoming.normalized_text_hash)
    ∷ ("processing_status", str incoming.processing_status)
    ∷ ("status", str incoming.status)
    ∷ ("metadata", dict incoming.metadata)
    ∷ []

unfoldable pub normalized_insert_values : NormalizedRecord → Value → ℕ → List (String × Value)
unfolding normalized_common_values
normalized_insert_values incoming intelligence_id now =
    ("id", intelligence_id)
    ∷ ("raw_intelligence_id", incoming.raw_intelligence_id)
    ∷ ("created_at", time now)
    ∷ ("updated_at", time now)
    ∷ normalized_common_values incoming
