-- ===== src/Ingest/Payload.antt =====
-- The payload and what is computed from it alone, backend/app/services/intelligence_ingest.py.
use sentinel_drive.Prelude.{String, Option, List, ℤ}
use sentinel_drive.Value.{Fields}
use sentinel_drive.Api.Safety.{Datetime}

-- `Severity` of backend/app/db/types.py.
pub data Severity : Type 0 where
  unknown low medium high critical : Severity

-- `IntelligenceIngestRequest`: a score is its number of hundredths, a datetime its number of
-- microseconds.
pub record Payload : Type 0 where
  pub source_name : String
  pub source_url : String
  pub platform : Option String
  pub title : String
  pub summary : String
  pub description : Option String
  pub external_id : Option String
  pub cve_id : Option String
  pub cnvd_id : Option String
  pub vendor_advisory_id : Option String
  pub affected_vendor : Option String
  pub affected_products : List String
  pub components : List String
  pub attack_surfaces : List String
  pub severity : Severity
  pub external_score : Option ℤ
  pub published_at : Option Datetime
  pub collected_at : Option Datetime
  pub dedup_key : Option String
  pub content_hash : Option String
  pub raw_payload : Option Fields
  pub tags : List String
