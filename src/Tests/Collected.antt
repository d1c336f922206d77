-- ===== src/Tests/Collected.antt =====
-- Collection, persistence and the pipeline.
use sentinel_drive.Prelude.{
  ◌≡◌, refl, ℕ, ◌+◌, String, true, Option, none, some, List, [], ◌∷◌, ◌++◌, inl, inr, tally, keep,
  any, All, nat_Eq, if◌then◌else◌, ◌==◌, string_Eq, pos,
}
use sentinel_drive.Value.{int, str, other, dict, end, field, Fields, get}
use sentinel_drive.Value.Equality.{value_eq}
use sentinel_drive.Database.{SessionFault, at_commit, Table, select_first}
use sentinel_drive.Collection.Contracts.{SourceConfig, api}
use sentinel_drive.Collection.Runtime.{
  RuntimeState, Clock, Collect, SourceRunRecord, run_connector, wait_for_rate_limit, cursor_of,
  run_record, collected,
}
use sentinel_drive.Collection.Enabled.{Factory, is_failed, skipped_record, uncreated_record}
use sentinel_drive.Collection.Runtime.Attempts.{Reports, run_connector-Reports}
use sentinel_drive.Collection.Runtime.State.{
  SameAt, run_connector-SameAt, LeavesRecord, run_connector-LeavesRecord,
}
use sentinel_drive.Persistence.{apply_retention_policy}
use sentinel_drive.Persistence.Retention.{Kept, retention-Kept}
use sentinel_drive.Persistence.Runs.{Store, Ids}
use sentinel_drive.Persistence.Streaks.{sync_after, failures_in, sync_streak}
use sentinel_drive.Persistence.Whole.{
  run_and_persist_enabled_sources, Completed, run_and_persist-Completed,
}
use sentinel_drive.Pipeline.{Step, run_processing_pipeline}
use sentinel_drive.Pipeline.Stages.{has_failed, failure_entry, outcomes_of, Has, pipeline_failures}
use sentinel_drive.Collection.Runtime.{
  run_attempts, backoff_after, record_success, record_error, record_attempt,
}
use sentinel_drive.Tests.Samples.{plain, row_of}

abbrev source_of : String → SourceConfig
source_of name = record {
  name = name;
  source_type = api;
  enabled = true;
  base_url = none;
  sync_interval = pos 3600000000;
  timeout = pos 20000000;
  rate_limit_per_minute = pos 20;
  retry_policy = record { attempts = 2; backoff = 1000000; max_backoff = 1500000 };
  cursor = none;
  metadata = end;
}

-- A connector that fails in its first attempt, and gives no item in the others.
abbrev second_time : Collect
second_time n cursor =
    if n == 1
    then inr (record { message = "timeout"; class_name = "ConnectorTimeoutError" })
    else inl (record { items = []; next_cursor = some "c2"; metadata = end })

abbrev fresh_state : RuntimeState
fresh_state = record {
  cursors = λ s. none;
  next_allowed_at = λ s. none;
  errors = λ s. none;
  attempts = λ s. none;
  last_success_at = λ s. none;
}

abbrev clock : Clock
clock = record { started = 100; finished = 200; monotonic_start = 10; monotonic_end = 20 }

run_connector_run :
    ((run_connector (source_of "nvd") second_time clock fresh_state).record_of.attempts ≡ 2)
    × ((run_connector (source_of "nvd") second_time clock fresh_state).sleeps ≡ 1000000 ∷ [])
unfolding run_connector run_attempts wait_for_rate_limit backoff_after record_success record_error
    record_attempt
run_connector_run = (refl, refl)

run_connector-Reports_example :
    let r = (run_connector (source_of "nvd") second_time clock fresh_state).record_of in
    Reports (source_of "nvd") second_time (cursor_of (source_of "nvd") fresh_state) r r.status
run_connector-Reports_example =
    run_connector-Reports (source_of "nvd") second_time clock fresh_state

run_connector-SameAt_example :
    SameAt
      (source_of "nvd")
      second_time
      (cursor_of (source_of "nvd") fresh_state)
      200
      "rss"
      fresh_state
      (run_connector (source_of "nvd") second_time clock fresh_state).state
run_connector-SameAt_example =
    run_connector-SameAt (source_of "nvd") second_time clock fresh_state "rss" refl

run_connector-LeavesRecord_example :
    let ran = run_connector (source_of "nvd") second_time clock fresh_state in
    LeavesRecord (source_of "nvd") fresh_state 200 ran.state ran.record_of
run_connector-LeavesRecord_example =
    run_connector-LeavesRecord (source_of "nvd") second_time clock fresh_state

abbrev factories : List (String × Factory)
factories = ("nvd", λ source. inl second_time) ∷ []

abbrev raw_item : Fields
raw_item = field "raw_hash" (str "h") (field "raw_content" (dict (field "a" (str "b") end)) end)

retention-Kept_example :
    Kept (λ v. 300000) api (get (apply_retention_policy (λ v. 300000) raw_item api) "raw_content")
retention-Kept_example = retention-Kept (λ v. 300000) raw_item api

abbrev state_table : Table
state_table =
    row_of
      (("id", other "s1") ∷ ("source_id", other "a") ∷ ("consecutive_failures", int (pos 4)) ∷ [])
    ∷ []

abbrev success_record : SourceRunRecord
success_record =
    run_record (source_of "nvd") 100 200
      (collected (record { items = []; next_cursor = some "c2"; metadata = end })) 1

abbrev failed_record : SourceRunRecord
failed_record =
    uncreated_record (source_of "nvd") 300 (record { message = "down"; class_name = "HTTPError" })

sync_streak_example :
    failures_in (other "a") (
      sync_after
        (other "a")
        500
        ((failed_record ∷ [])
          ++ success_record
            ∷ failed_record
            ∷ skipped_record (source_of "nvd") 400 end
            ∷ failed_record
            ∷ [])
        state_table)
    ≡ tally is_failed
        (failed_record ∷ skipped_record (source_of "nvd") 400 end ∷ failed_record ∷ [])
unfolding select_first value_eq
sync_streak_example =
    sync_streak (other "a") 500 (failed_record ∷ [])
      (failed_record ∷ skipped_record (source_of "nvd") 400 end ∷ failed_record ∷ []) success_record
      state_table
      (
        row_of (
            ("id", other "s1")
            ∷ ("source_id", other "a")
            ∷ ("consecutive_failures", int (pos 4))
            ∷ []),
        refl,
      )
      refl (refl, (refl, (refl, tt)))

abbrev empty_store : Store
empty_store = record { sources = []; states = []; raw = []; logs = [] }

abbrev ids : ℕ → Ids
ids n = record { source = other "s"; state = other "t"; job = other "j"; raw = λ k. other "r" }

-- A commit that fails for one source.
abbrev broken_commit : String → Option SessionFault
broken_commit s =
    if s == "rss"
    then some (at_commit (record { message = "gone"; class_name = "OperationalError" }))
    else none

run_and_persist-Completed_example :
    Completed broken_commit
      ("nvd" ∷ "rss" ∷ [])
      (run_and_persist_enabled_sources plain factories
        (λ s. clock)
        (λ v. 10)
        broken_commit
        ids
        500
        (source_of "nvd" ∷ source_of "rss" ∷ [])
        fresh_state
        empty_store).0
run_and_persist-Completed_example =
    run_and_persist-Completed plain factories (λ s. clock) (λ v. 10) broken_commit ids 500
      (source_of "nvd" ∷ source_of "rss" ∷ []) fresh_state empty_store

-- Stages on a counter: one that returns a dict, and one that raises.
abbrev works : Step ℕ
works s = (inl (field "status" (str "completed") end), s + 1)

abbrev raises : Step ℕ
raises s = (inr (record { message = "boom"; class_name = "RuntimeError" }), s + 1)

-- A stage that returns the status "failed".
abbrev reports_failure : Step ℕ
reports_failure s =
    (inl (field "status" (str "failed") (field "error_message" (str "no rows") end)), s + 1)

pipeline_failures_example :
    let r = (run_processing_pipeline works raises works (some reports_failure) 0).0 in
    let outcomes = outcomes_of works raises works (some reports_failure) 0 in
    All (λ o. Has (failure_entry o) r.stage_failures) (keep has_failed outcomes)
    × (r.status ≡ (if any has_failed outcomes then "completed_with_errors" else "completed"))
pipeline_failures_example = pipeline_failures works raises works (some reports_failure) 0
