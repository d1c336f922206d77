-- ===== src/Normalization/Sources.antt =====
-- The normalisers of single sources, worker/sentineldrive_worker/normalization/normalizers.py: the
-- base record that all of them build on, and their helpers. Items of tag and product lists that are no
-- texts count as the text that `str` gives.
pub mod Feeds
pub mod Entries
pub mod Builtin
pub mod Titled
pub mod Chosen
use Prim.Native.Char.{code}
use Prim.Native.String.{[], ◌∷◌}
use mathlib.Core.List.{[], ◌∷◌}
use sentinel_drive.Prelude.{
  ℕ, zero, suc, ◌*◌, ◌+◌, String, ◌<>◌, Bool, true, false, ◌&&◌, ◌||◌, not, Option, none, some,
  List, ◌++◌, map, ◌⊎◌, inl, inr, ◌==◌, nat_Eq, string_Eq, if◌then◌else◌, ℤ, pos, negsuc, any,
  contains, keep, sort_by,
}
use sentinel_drive.Text.{
  strip, lower, split, join, take_text, is_in, is_empty, text_le, spaces_to_underscores, has_prefix,
}
use sentinel_drive.Value.{
  Python, Value, none_value, bool, int, float, str, time, other, list, dict, Values, nil, cons,
  Fields, end, field, get, put, update, or_else, dict_or_empty, to_list, text, text_or_empty,
  truthy, from_items, text_or_none,
}
use sentinel_drive.Value.Row.{Row}
use sentinel_drive.Sanitize.{Error}
use sentinel_drive.Normalization.Dedup.{normalize_text, stable_hash, text_hash}
use sentinel_drive.Normalization.Keys.{UrlParse, canonical_url, dedup_key}
use sentinel_drive.Normalization.Record.{NormalizedRecord, SourceAttribution}
use sentinel_drive.Normalization.Cleaning.{
  ◌>>=◌, text_of, or_default, is_present, sorted_set, require_datetime, clean_optional, clean_title,
  source_external_ids,
}

-- What a normaliser passes to `base_record`.
pub record Details : Type 0 where
  pub title : String
  pub summary : Option String
  pub intelligence_type : String
  pub cve_id : Option String
  pub cwe_id : Option String
  pub cvss_score : Option ℤ
  pub cvss_vector : Option String
  pub severity : String
  pub affected_vendor : Option String
  pub affected_product : Option String
  pub affected_version : Option String
  pub vehicle_component : Option String
  pub attack_surface : Option String
  pub exploit_status : String
  pub confidence : String
  pub tags : List String
  pub status : String
  pub metadata : Fields

-- The defaults.
abbrev pub details : String → Option String → String → Details
details title summary intelligence_type = record {
  title = title;
  summary = summary;
  intelligence_type = intelligence_type;
  cve_id = none;
  cwe_id = none;
  cvss_score = none;
  cvss_vector = none;
  severity = "unknown";
  affected_vendor = none;
  affected_product = none;
  affected_version = none;
  vehicle_component = none;
  attack_surface = none;
  exploit_status = "unknown";
  confidence = "medium";
  tags = [];
  status = "active";
  metadata = end;
}

module _ (P : Python) where
  -- `" ".join(filter(None, …))`
  unfoldable pub signature_text : String → Option String → Option String → Option String → String
  signature_text title summary cve_id cwe_id = join " " (
      keep (λ x. not (is_empty x)) (title ∷ text_of summary ∷ text_of cve_id ∷ text_of cwe_id ∷ []))

  module _ (U : UrlParse) where
    unfoldable pub source_url_of : Row → String
    source_url_of raw =
        or_default (canonical_url P U (raw "source_url")) (text_or_empty P (raw "source_url"))

    -- The record from its parts that may raise.
    unfoldable pub record_of : String → Row → Details → String → ℕ → ℕ → NormalizedRecord
    record_of class_name raw d title first_seen last_seen =
        let summary =
          clean_optional P
            (or_else (text_or_none d.summary) (or_else (raw "summary") (raw "snippet"))) in
        let source_url = source_url_of raw in
        let source_name = text P (or_else (raw "source_name") (str "unknown")) in
        let hash = text_hash P (str (signature_text title summary d.cve_id d.cwe_id)) in
        record {
          title = title;
          summary = summary;
          intelligence_type = d.intelligence_type;
          dedup_key =
              dedup_key P U d.cve_id (some source_url) (some title) (some source_name)
                (clean_optional P (raw "content_hash")) (some hash);
          source_names = source_name ∷ [];
          source_urls = source_url ∷ [];
          canonical_source_url = some source_url;
          external_ids = source_external_ids P raw d.cve_id d.cwe_id;
          first_seen_at = first_seen;
          last_seen_at = last_seen;
          normalized_text_hash = hash;
          raw_intelligence_id = raw "id";
          cve_id = d.cve_id;
          cwe_id = d.cwe_id;
          cvss_score = d.cvss_score;
          cvss_vector = d.cvss_vector;
          severity = d.severity;
          affected_vendor = d.affected_vendor;
          affected_product = d.affected_product;
          affected_version = d.affected_version;
          vehicle_component = d.vehicle_component;
          attack_surface = d.attack_surface;
          exploit_status = d.exploit_status;
          confidence = d.confidence;
          risk_score = none;
          risk_level = "info";
          tags = sorted_set d.tags;
          processing_status = "normalized";
          status = d.status;
          metadata =
              update
                (from_items
                  (("normalizer", str class_name) ∷ ("raw_source_type", raw "source_type") ∷ []))
                d.metadata;
          attribution = some (record {
            source_id = raw "source_id";
            raw_intelligence_id = raw "id";
            source_name = source_name;
            source_url = source_url;
            external_id = clean_optional P (raw "external_id");
            first_seen_at = first_seen;
            last_seen_at = last_seen;
          });
        }

    -- `base_record`, with the name of the normaliser's class.
    unfoldable pub base_record : String → Row → Details → NormalizedRecord ⊎ Error
    base_record class_name raw d = do
      title ← clean_title P (str d.title) raw
      first_seen ←
          require_datetime (or_else (raw "first_seen_at") (raw "fetched_at")) "first_seen_at"
      last_seen ← require_datetime (or_else (raw "fetched_at") (time first_seen)) "fetched_at"
      inl (record_of class_name raw d title first_seen last_seen)
