-- ===== src/Tests/Normalized.antt =====
-- Normalisation and merging.
use Prim.Native.Nat.{max, min}
use sentinel_drive.Prelude.{
  ◌≡◌, refl, ℕ, false, ◌&&◌, none, some, List, [], ◌∷◌, inl, inr, if◌then◌else◌, not, All, length,
  string_Eq,
}
use sentinel_drive.Value.{Value, str, time, other, end, field, value_runs}
use sentinel_drive.Value.Equality.{value_eq}
use sentinel_drive.Value.Row.{Row}
use sentinel_drive.Text.{text_runs}
use sentinel_drive.Normalization.Unique.{unique_values, unique_from}
use sentinel_drive.Normalization.Record.{NormalizedRecord}
use sentinel_drive.Normalization.Merge.{is_empty, severity_rank, exploit_rank, confidence_rank}
use sentinel_drive.Normalization.Merged.{
  merged, incoming_row, merged-conservative, merged-strongest, merged-seen,
}
use sentinel_drive.Normalization.Registry.{
  Registry, empty_registry, register_source_name, registry_runs,
}
use sentinel_drive.Normalization.Service.{
  Store, Faults, Normalizer, upsert_normalized_record, pending_raw_query, normalize_pending,
}
use sentinel_drive.Normalization.Service.Upsert.{UniqueKeys, MergedInto, upsert_again}
use sentinel_drive.Normalization.Service.Queue.{
  Settled, normalize_pending-Settles, normalize_pending-UniqueKeys,
}
use sentinel_drive.Prelude.{sort_by}
use sentinel_drive.Database.{column_is, select_first, update_where}
use sentinel_drive.Normalization.Service.{
  normalize_rows, normalize_in_session, normalize_raw_row, store_normalized, mark_failed, fresher,
  upsert_source_attribution,
}
use sentinel_drive.Tests.Samples.{plain, row_of}

abbrev names : List Value
names = str "NVD" ∷ str "" ∷ str "KEV" ∷ str "NVD" ∷ []

unique_values_run : unique_values names ≡ str "NVD" ∷ str "KEV" ∷ []
unfolding unique_values unique_from value_eq
unique_values_run = refl

-- A record of a vulnerability in a telematics unit.
abbrev pub tbox_record : NormalizedRecord
tbox_record = record {
  title = "T-Box overflow";
  summary = some "A modem overflow.";
  intelligence_type = "vulnerability";
  dedup_key = "cve:CVE-2026-1000";
  source_names = "NVD" ∷ [];
  source_urls = "https://nvd.example/1" ∷ [];
  canonical_source_url = some "https://nvd.example/1";
  external_ids = field "nvd" (str "CVE-2026-1000") end;
  first_seen_at = 40;
  last_seen_at = 50;
  normalized_text_hash = "h1";
  raw_intelligence_id = other "r1";
  cve_id = some "CVE-2026-1000";
  cwe_id = none;
  cvss_score = none;
  cvss_vector = none;
  severity = "high";
  affected_vendor = none;
  affected_product = none;
  affected_version = none;
  vehicle_component = some "tbox";
  attack_surface = none;
  exploit_status = "unknown";
  confidence = "high";
  risk_score = none;
  risk_level = "info";
  tags = "cve" ∷ [];
  processing_status = "normalized";
  status = "active";
  metadata = end;
  attribution = none;
}

abbrev stored_row : Row
stored_row = row_of (
    ("id", other "t1")
    ∷ ("dedup_key", str "cve:CVE-2026-1000")
    ∷ ("title", str "CVE-2026-1000")
    ∷ ("cve_id", str "CVE-2026-1000")
    ∷ ("severity", str "critical")
    ∷ ("exploit_status", str "exploited")
    ∷ ("confidence", str "low")
    ∷ ("first_seen_at", time 45)
    ∷ ("last_seen_at", time 60)
    ∷ [])

merged-conservative_example : merged stored_row tbox_record 70 "summary" ≡ (
    if is_empty (stored_row "summary") && not (is_empty (incoming_row tbox_record "summary"))
    then incoming_row tbox_record "summary"
    else stored_row "summary")
merged-conservative_example = merged-conservative stored_row tbox_record 70 "summary" refl

merged-strongest_example :
    let row = merged stored_row tbox_record 70 in
    (severity_rank (row "severity")
      ≡ max (severity_rank (stored_row "severity")) (severity_rank (str "high")))
    × (exploit_rank (row "exploit_status")
        ≡ max (exploit_rank (stored_row "exploit_status")) (exploit_rank (str "unknown")))
    × (confidence_rank (row "confidence")
        ≡ max (confidence_rank (stored_row "confidence")) (confidence_rank (str "high")))
merged-strongest_example = merged-strongest stored_row tbox_record 70

merged-seen_example :
    let row = merged stored_row tbox_record 70 in
    (row "first_seen_at" ≡ time (min 45 40)) × (row "last_seen_at" ≡ time (max 60 50))
merged-seen_example = merged-seen stored_row tbox_record 70 45 60 refl refl

-- A normaliser that gives the record for every row but those of the source "broken".
abbrev pub sample_normalizer : Normalizer
sample_normalizer row =
    if value_eq (row "title") (str "broken")
    then inr (record { message = "no title"; class_name = "NormalizationError" })
    else inl tbox_record

abbrev pub sample_registry : Registry Normalizer
sample_registry = register_source_name plain " NVD " sample_normalizer empty_registry

abbrev manual_row : Row
manual_row = row_of (("source_name", str "Desk") ∷ ("source_type", str "Manual") ∷ [])

upsert_again_example :
    let first = upsert_normalized_record tbox_record (other "n1") 70 (stored_row ∷ []) in
    let second = upsert_normalized_record tbox_record (other "n2") 80 first.table in
    (existing : Row) × (select_first (column_is "dedup_key" (str "cve:CVE-2026-1000")) first.table
      ≡ some existing)
    × (first.intelligence_id ≡ existing "id")
    × MergedInto existing tbox_record 80 first.table second
unfolding value_eq
upsert_again_example =
    upsert_again tbox_record tbox_record (other "n1") (other "n2") 70 80 (stored_row ∷ []) refl refl
      (refl, tt)

abbrev raw_rows : List Row
raw_rows =
    row_of (
      ("id", other "r1")
      ∷ ("source_name", str "NVD")
      ∷ ("processing_status", str "collected")
      ∷ ("title", str "ok")
      ∷ [])
    ∷ row_of (
        ("id", other "r2")
        ∷ ("source_name", str "NVD")
        ∷ ("processing_status", str "pending")
        ∷ ("title", str "broken")
        ∷ [])
    ∷ row_of (
        ("id", other "r3")
        ∷ ("source_name", str "NVD")
        ∷ ("processing_status", str "normalized")
        ∷ [])
    ∷ []

abbrev sample_store : Store
sample_store = record { raw = raw_rows; intelligence = stored_row ∷ []; links = [] }

abbrev no_faults : Faults
no_faults = record { in_transaction = λ v. none; in_mark = λ v. false }

abbrev uuids : ℕ → Value × Value
uuids n = (other "n", other "m")

normalize_pending_run :
    let (summary, store) =
      normalize_pending plain sample_registry no_faults uuids 70 5 sample_store in
    (summary.normalized_count ≡ 1) × (summary.failed_count ≡ 1) × (length store.intelligence ≡ 1)
unfolding normalize_pending normalize_rows normalize_in_session normalize_raw_row store_normalized
    mark_failed pending_raw_query fresher sort_by value_eq select_first update_where
    upsert_normalized_record upsert_source_attribution registry_runs text_runs value_runs
normalize_pending_run = (refl, refl, refl)

normalize_pending-Settles_example :
    All
      (λ row.
        Settled
          (row "id")
          (normalize_pending plain sample_registry no_faults uuids 70 5 sample_store).1.raw)
      (pending_raw_query 5 raw_rows)
normalize_pending-Settles_example =
    normalize_pending-Settles plain sample_registry no_faults uuids 70 5 sample_store (λ v. refl)

normalize_pending-UniqueKeys_example :
    UniqueKeys
      (normalize_pending plain sample_registry no_faults uuids 70 5 sample_store).1.intelligence
normalize_pending-UniqueKeys_example =
    normalize_pending-UniqueKeys plain sample_registry no_faults uuids 70 5 sample_store (refl, tt)
