-- ===== src/Persistence/Runs.antt =====
-- What is written after the items of a source, and the whole run: the second half of
-- worker/sentineldrive_worker/persistence/service.py.
use sentinel_drive.Prelude.{
  ℕ, suc, String, Bool, true, false, Option, none, some, List, [], ◌∷◌, ◌⊎◌, inl, inr,
  if◌then◌else◌, ltb, ◌==◌, string_Eq, pos,
}
use sentinel_drive.Text.{take_text}
use sentinel_drive.Value.{
  Value, none_value, bool, int, str, time, dict, Fields, from_items, put, update, text_or_none,
}
use sentinel_drive.Value.Row.{Row, with_columns}
use sentinel_drive.Database.{
  SessionFault, raised, at_commit, Table, column_is, select_first, update_where, insert_row,
}
use sentinel_drive.Sanitize.{Error}
use sentinel_drive.Normalization.Merge.{empty_row}
use sentinel_drive.Collection.Contracts.{SourceConfig}
use sentinel_drive.Collection.Runtime.{SourceRunRecord, RunStatus, success, failed, skipped}
use sentinel_drive.Persistence.{
  status_value, is_disabled, ensure_source, ensure_sync_state, upsert_raw_record, Written, created,
  updated,
}

abbrev pub time_or_none : Option ℕ → Value
time_or_none none = none_value
time_or_none (some t) = time t

-- The columns that `update_source_status` writes, by the status of the run.
unfoldable pub status_columns : SourceRunRecord → RunStatus → List (String × Value)
status_columns r success =
    ("status", str "enabled")
    ∷ ("last_success_at", time r.finished_at)
    ∷ ("last_error_message", none_value)
    ∷ []
status_columns r failed =
    ("status", str "error")
    ∷ ("last_error_at", time r.finished_at)
    ∷ ("last_error_message", text_or_none r.error_message)
    ∷ []
status_columns r skipped = if is_disabled r then ("status", str "disabled") ∷ [] else []

unfoldable pub update_source_status : Value → SourceRunRecord → ℕ → Table → Table
update_source_status source_id r now table =
    update_where (column_is "id" source_id) (("updated_at", time now) ∷ status_columns r r.status)
      table

-- `int(value or 0)` on a column of whole numbers.
abbrev pub count_of : Value → ℕ
count_of (int (pos n)) = n
count_of _ = 0

-- The number of failures in a row after a run.
unfoldable pub next_failures : RunStatus → ℕ → ℕ
next_failures success n = 0
next_failures failed n = suc n
next_failures skipped n = n

unfoldable pub next_cursor_value : SourceRunRecord → RunStatus → Value → Value
next_cursor_value r success cursor = elim r.next_cursor [ none ↦ cursor | some c ↦ str c ]
next_cursor_value r failed cursor = cursor
next_cursor_value r skipped cursor = cursor

-- The status of the synchronisation, and of the job: a skipped run is no failure.
abbrev pub job_status : RunStatus → String
job_status failed = "failed"
job_status _ = "success"

unfoldable pub sync_metadata : SourceRunRecord → Fields
sync_metadata r = from_items (
    ("last_run_status", str (status_value r.status))
    ∷ ("attempts", int (pos r.attempts))
    ∷ ("items_seen", int (pos r.items_seen))
    ∷ ("error_message", text_or_none r.error_message)
    ∷ ("metadata", dict r.metadata)
    ∷ [])

unfoldable pub sync_columns : SourceRunRecord → Row → ℕ → List (String × Value)
sync_columns r existing now =
    ("cursor", next_cursor_value r r.status (existing "cursor"))
    ∷ ("status", str (job_status r.status))
    ∷ ("last_run_at", time r.finished_at)
    ∷ ("next_run_at", time_or_none r.next_run_at)
    ∷ (
      "consecutive_failures",
      int (pos (next_failures r.status (count_of (existing "consecutive_failures")))),
    )
    ∷ ("metadata", dict (sync_metadata r))
    ∷ ("updated_at", time now)
    ∷ []

-- `one()` raises where there is no row; a run has made sure that there is one.
abbrev pub updated_state : Option Row → Value → SourceRunRecord → ℕ → Table → Table ⊎ Error
updated_state none source_id r now table =
    inr
      (record { message = "No row was found when one was required"; class_name = "NoResultFound" })
updated_state (some existing) source_id r now table =
    inl (update_where (column_is "source_id" source_id) (sync_columns r existing now) table)

unfoldable pub update_sync_state : Value → SourceRunRecord → ℕ → Table → Table ⊎ Error
update_sync_state source_id r now table =
    updated_state (select_first (column_is "source_id" source_id) table) source_id r now table

abbrev pub flagged : Bool → String → Fields → Fields
flagged true k d = put d k (bool true)
flagged false k d = d

abbrev pub is_skipped_status : RunStatus → Bool
is_skipped_status skipped = true
is_skipped_status _ = false

unfoldable pub job_metadata : SourceRunRecord → Fields
job_metadata r =
    let metadata = update r.metadata (
      from_items (
        ("run_status", str (status_value r.status))
        ∷ ("attempts", int (pos r.attempts))
        ∷ ("next_cursor", text_or_none r.next_cursor)
        ∷ [])) in
    flagged (ltb 1 r.attempts) "retried" (flagged (is_skipped_status r.status) "skipped" metadata)

unfoldable pub insert_job_log : Value → SourceRunRecord → ℕ → ℕ → Value → ℕ → Table → Table
insert_job_log source_id r items_created items_updated new_id now table =
    insert_row
      (with_columns empty_row (
        ("id", new_id)
        ∷ ("job_name", str "sentineldrive.sync_sources")
        ∷ ("source_id", source_id)
        ∷ ("status", str (job_status r.status))
        ∷ ("started_at", time r.started_at)
        ∷ ("finished_at", time r.finished_at)
        ∷ ("items_seen", int (pos r.items_seen))
        ∷ ("items_created", int (pos items_created))
        ∷ ("items_updated", int (pos items_updated))
        ∷ ("error_message", text_or_none r.error_message)
        ∷ ("metadata", dict (job_metadata r))
        ∷ ("created_at", time now)
        ∷ ("updated_at", time now)
        ∷ []))
      table

pub record Store : Type 0 where
  pub sources : Table
  pub states : Table
  pub raw : Table
  pub logs : Table

-- The identifiers that a source's transaction may use: of the source, its state, its job, and of
-- the raw item with a number.
pub record Ids : Type 0 where
  pub source : Value
  pub state : Value
  pub job : Value
  pub raw : ℕ → Value

abbrev pub counted : Written → ℕ × ℕ → ℕ × ℕ
counted created (c, u) = (suc c, u)
counted updated (c, u) = (c, suc u)

-- The loop over the raw items: how many were created and updated, and the table.
unfoldable pub write_items :
    (Value → ℕ) → Value → SourceConfig → (ℕ → Value) → ℕ → ℕ → List Fields → Table → (ℕ × ℕ) × Table
write_items byte_size source_id source ids n now [] table = ((0, 0), table)
write_items byte_size source_id source ids n now (item ∷ items) table =
    let (written, table') = upsert_raw_record byte_size source_id source item (ids n) now table in
    let (counts, table'') = write_items byte_size source_id source ids (suc n) now items table' in
    (counted written counts, table'')

abbrev pub items_of : SourceRunRecord → RunStatus → List Fields
items_of r success = r.raw_items
items_of r _ = []

-- The dict that is reported for a source.
pub record Persisted : Type 0 where
  pub source_name : String
  pub source_id : Option Value
  pub job_log_id : Option Value
  pub status : String
  pub items_seen : ℕ
  pub items_created : ℕ
  pub items_updated : ℕ
  pub error_message : Option String

module _ (byte_size : Value → ℕ) where
  abbrev pub persisted_state :
      Table ⊎ Error
      → SourceConfig
      → SourceRunRecord
      → Value
      → Ids
      → ℕ
      → Store
      → ℕ × ℕ
      → Table
      → (Persisted × Store) ⊎ Error
  persisted_state (inr error) source r source_id ids now store (c, u) raw = inr error
  persisted_state (inl states) source r source_id ids now store (c, u) raw = inl (
    record {
      source_name = source.name;
      source_id = some source_id;
      job_log_id = some ids.job;
      status = status_value r.status;
      items_seen = r.items_seen;
      items_created = c;
      items_updated = u;
      error_message = none;
    },
    record {
      sources = update_source_status source_id r now store.sources;
      states = states;
      raw = raw;
      logs = insert_job_log source_id r c u ids.job now store.logs;
    },
  )

  -- One transaction: what it reports and writes, or the error that it raises.
  unfoldable pub persist_source_run :
      SourceConfig → SourceRunRecord → Ids → ℕ → Store → (Persisted × Store) ⊎ Error
  persist_source_run source r ids now store =
      let (source_id, sources) = ensure_source source r ids.source now store.sources in
      let states = ensure_sync_state source_id ids.state now store.states in
      let (counts, raw) =
        write_items byte_size source_id source ids.raw 0 now (items_of r r.status) store.raw in
      persisted_state (update_sync_state source_id r now states) source r source_id ids now
        (record { sources = sources; states = store.states; raw = store.raw; logs = store.logs })
        counts raw

abbrev pub not_persisted : SourceConfig → SourceRunRecord → Error → Persisted
not_persisted source r error = record {
  source_name = source.name;
  source_id = none;
  job_log_id = none;
  status = "persistence_failed";
  items_seen = r.items_seen;
  items_created = 0;
  items_updated = 0;
  error_message = some (take_text 500 error.message);
}

-- The reports of a transaction and the tables after it. The report of the source is appended before
-- the commit: a commit that raises leaves it and appends one of the failure. What raises is rolled
-- back.
abbrev pub committed :
    Option SessionFault
    → (Persisted × Store) ⊎ Error
    → SourceConfig
    → SourceRunRecord
    → Store
    → List Persisted × Store
committed none (inl (p, store')) source r store = (p ∷ [], store')
committed none (inr error) source r store = (not_persisted source r error ∷ [], store)
committed (some (raised error)) x source r store = (not_persisted source r error ∷ [], store)
committed (some (at_commit error)) (inl (p, store')) source r store =
    (p ∷ not_persisted source r error ∷ [], store)
committed (some (at_commit error)) (inr own) source r store =
    (not_persisted source r own ∷ [], store)

-- `configs_by_name[name]`: the last source of the name.
unfoldable pub config_of : String → List SourceConfig → Option SourceConfig
config_of name [] = none
config_of name (s ∷ sources) = elim (config_of name sources) [
  | some found ↦ some found
  | none ↦ if s.name == name then some s else none
]
