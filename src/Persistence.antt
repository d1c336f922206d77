-- ===== src/Persistence.antt =====
-- What a collection run writes, worker/sentineldrive_worker/persistence/service.py. The run's record
-- reaches it without change: `record_to_dict` writes the times as ISO text, which `parse_datetime`
-- reads back. A new identifier (`uuid4`) is an argument, and so is the size of a value's text in UTF-8.
pub mod Runs
pub mod Reports
pub mod Whole
pub mod Retention
pub mod Streaks
use sentinel_drive.Prelude.{
  ℕ, suc, zero, ◌+◌, String, ◌≡◌, Bool, true, false, ◌||◌, ◌&&◌, not, Option, none, some, List, [],
  ◌∷◌, ◌++◌, ◌⊎◌, inl, inr, length, if◌then◌else◌, ltb, tally, ◌==◌, string_Eq, ℤ, pos,
}
use sentinel_drive.Text.{take_text}
use sentinel_drive.Value.{
  Python, Value, none_value, bool, int, str, time, dict, Fields, end, from_items, get, put, has_key,
  truthy, or_else, dict_or_empty, update, text_or_none,
}
use sentinel_drive.Value.Equality.{value_eq}
use sentinel_drive.Value.Row.{Row, with_columns}
use sentinel_drive.Database.{Table, column_is, select_first, update_where, insert_row}
use sentinel_drive.Sanitize.{Error}
use sentinel_drive.Normalization.Merge.{empty_row}
use sentinel_drive.Collection.Contracts.{SourceConfig, SourceType, html, pdf, type_value}
use sentinel_drive.Collection.Runtime.{SourceRunRecord, RunStatus, success, failed, skipped}

abbrev pub max_raw_content_bytes : ℕ
max_raw_content_bytes = 256000

abbrev pub status_value : RunStatus → String
status_value success = "success"
status_value failed = "failed"
status_value skipped = "skipped"

-- `source_metadata`; the durations are in microseconds.
unfoldable pub source_metadata : SourceConfig → Fields
source_metadata s = from_items (
    ("sync_interval_seconds", int s.sync_interval)
    ∷ ("timeout_seconds", int s.timeout)
    ∷ ("rate_limit_per_minute", int s.rate_limit_per_minute)
    ∷ ("retry_attempts", int (pos s.retry_policy.attempts))
    ∷ ("retry_backoff_seconds", int (pos s.retry_policy.backoff))
    ∷ ("retry_max_backoff_seconds", int (pos s.retry_policy.max_backoff))
    ∷ ("metadata", dict s.metadata)
    ∷ [])

-- `record["metadata"].get("reason") == "disabled"`
abbrev pub is_disabled : SourceRunRecord → Bool
is_disabled r = value_eq (get r.metadata "reason") (str "disabled")

-- The status that `ensure_source` writes.
unfoldable pub source_status : SourceRunRecord → RunStatus → String
source_status r skipped = if is_disabled r then "disabled" else "enabled"
source_status r failed = "error"
source_status r success = "enabled"

abbrev pub source_columns : SourceConfig → SourceRunRecord → ℕ → List (String × Value)
source_columns source r now =
    ("source_type", str (type_value source.source_type))
    ∷ ("base_url", text_or_none source.base_url)
    ∷ ("status", str (source_status r r.status))
    ∷ ("config", dict (source_metadata source))
    ∷ ("updated_at", time now)
    ∷ []

abbrev pub ensured_source :
    Option Row → SourceConfig → SourceRunRecord → Value → ℕ → Table → Value × Table
ensured_source (some existing) source r new_id now table = (
  existing "id",
  update_where (column_is "id" (existing "id")) (source_columns source r now) table,
)
ensured_source none source r new_id now table = (
  new_id,
  insert_row
      (with_columns empty_row (
        ("id", new_id)
        ∷ ("name", str source.name)
        ∷ ("created_at", time now)
        ∷ source_columns source r now))
      table,
)

unfoldable pub ensure_source : SourceConfig → SourceRunRecord → Value → ℕ → Table → Value × Table
ensure_source source r new_id now table =
    ensured_source (select_first (column_is "name" (str source.name)) table) source r new_id now
      table

abbrev pub queued_state : Value → Value → ℕ → Row
queued_state source_id new_id now = with_columns empty_row (
    ("id", new_id)
    ∷ ("source_id", source_id)
    ∷ ("cursor", none_value)
    ∷ ("status", str "queued")
    ∷ ("consecutive_failures", int (pos 0))
    ∷ ("metadata", dict end)
    ∷ ("created_at", time now)
    ∷ ("updated_at", time now)
    ∷ [])

abbrev pub ensured_state : Option Row → Value → Value → ℕ → Table → Table
ensured_state (some existing) source_id new_id now table = table
ensured_state none source_id new_id now table = insert_row (queued_state source_id new_id now) table

unfoldable pub ensure_sync_state : Value → Value → ℕ → Table → Table
ensure_sync_state source_id new_id now table =
    ensured_state (select_first (column_is "source_id" source_id) table) source_id new_id now table

abbrev pub with_retention : Fields → String → Fields
with_retention item reason =
    let dropped =
      put (put item "raw_content" none_value) "retained_payload_mode" (str "metadata_only") in
    put dropped "metadata" (
      dict (
        put (dict_or_empty (or_else (get dropped "metadata") (dict end))) "retention_enforced"
          (str reason)))

abbrev pub is_document : SourceType → Bool
is_document html = true
is_document pdf = true
is_document _ = false

-- `apply_retention_policy`
unfoldable pub apply_retention_policy : (Value → ℕ) → Fields → SourceType → Fields
apply_retention_policy byte_size item source_type =
    let content = get item "raw_content" in
    if is_document source_type
    then with_retention item "metadata_only"
    else if not (value_eq content none_value) && ltb max_raw_content_bytes (byte_size content)
    then with_retention item "raw_content_too_large"
    else item

-- The rows that stand for a raw item: of its hash, or of its source and external identifier.
abbrev pub is_same_raw : Value → Fields → Row → Bool
is_same_raw source_id item row =
    value_eq (row "raw_hash") (get item "raw_hash")
    || (truthy (get item "external_id")
        && (value_eq (row "source_id") source_id
            && value_eq (row "external_id") (get item "external_id")))

unfoldable pub find_existing_raw_record : Value → Fields → Table → Option Row
find_existing_raw_record source_id item table = select_first (is_same_raw source_id item) table

-- `raw_item.get(key, default)`
abbrev pub get_or : Fields → String → String → Value
get_or item key default = if has_key item key then get item key else str default

unfoldable pub raw_record_values : Value → Fields → ℕ → List (String × Value)
raw_record_values source_id item now =
    ("source_id", source_id)
    ∷ ("source_name", get item "source_name")
    ∷ ("source_type", get item "source_type")
    ∷ ("source_url", get item "source_url")
    ∷ ("external_id", get item "external_id")
    ∷ ("fetched_at", get item "fetched_at")
    ∷ ("first_seen_at", get item "first_seen_at")
    ∷ ("title", get item "title")
    ∷ ("summary", get item "summary")
    ∷ ("snippet", get item "snippet")
    ∷ ("raw_content", get item "raw_content")
    ∷ ("raw_hash", get item "raw_hash")
    ∷ ("content_hash", get item "content_hash")
    ∷ ("parsing_status", get_or item "parsing_status" "pending")
    ∷ ("processing_status", get_or item "processing_status" "collected")
    ∷ ("error_message", get item "error_message")
    ∷ ("metadata", or_else (get item "metadata") (dict end))
    ∷ ("retained_payload_mode", get_or item "retained_payload_mode" "metadata_only")
    ∷ ("updated_at", time now)
    ∷ []

pub data Written : Type 0 where
  created : Written
  updated : Written

abbrev pub written_raw : Option Row → Value → Fields → Value → ℕ → Table → Written × Table
written_raw (some existing) source_id item new_id now table = (
  updated,
  update_where (column_is "id" (existing "id")) (raw_record_values source_id item now) table,
)
written_raw none source_id item new_id now table = (
  created,
  insert_row
      (with_columns empty_row
        (("id", new_id) ∷ ("created_at", time now) ∷ raw_record_values source_id item now))
      table,
)

unfoldable pub upsert_raw_record :
    (Value → ℕ) → Value → SourceConfig → Fields → Value → ℕ → Table → Written × Table
upsert_raw_record byte_size source_id source raw_item new_id now table =
    let item = apply_retention_policy byte_size raw_item source.source_type in
    written_raw (find_existing_raw_record source_id item table) source_id item new_id now table
