-- ===== src/Collection/Enabled.antt =====
-- A run over all sources: `run_enabled_sources` of
-- worker/sentineldrive_worker/connectors/runtime.py.
pub mod Sources
use Prim.Native.Nat.{min}
use sentinel_drive.Prelude.{
  ℕ, suc, zero, ◌+◌, ◌-◌, ◌*◌, ◌/◌, ◌^◌, String, ◌≡◌, Bool, true, false, ◌||◌, not, Option, none,
  some, List, [], ◌∷◌, ◌++◌, ◌⊎◌, inl, inr, map, length, if◌then◌else◌, ltb, tally, ◌==◌, string_Eq,
}
use sentinel_drive.Value.{
  Python, Value, none_value, str, Fields, end, field, from_items, lookup, text,
}
use sentinel_drive.Sanitize.{Error, sanitize_runtime_error}
use sentinel_drive.Collection.Contracts.{
  SourceConfig, RetryPolicy, ConnectorResult, RawPayload, to_raw_record, magnitude,
}
use sentinel_drive.Collection.Registry.{has, factory_of}
use sentinel_drive.Collection.Runtime.{
  Map, set_key, drop_key, RuntimeState, record_success, record_error, record_attempt,
  set_next_rate_limit, or_zero, sleep_for, wait_for_rate_limit, backoff_after, Ending, Attempted,
  Collect, on_result, succeeded, state_after_error, failed_for_good, after_sleep, run_attempts,
  RunStatus, SourceRunRecord, next_run_time, run_record, Clock, or_cursor, cursor_of, Ran,
  run_connector, success, failed, skipped, collected, gave_up,
}

abbrev pub skipped_record : SourceConfig → ℕ → Fields → SourceRunRecord
skipped_record source now metadata = record {
  source_name = source.name;
  status = skipped;
  items_seen = 0;
  next_cursor = none;
  attempts = 0;
  error_message = none;
  raw_items = [];
  started_at = now;
  finished_at = now;
  next_run_at = some (next_run_time source now);
  metadata = metadata;
}

abbrev pub uncreated_record : SourceConfig → ℕ → Error → SourceRunRecord
uncreated_record source now error = record {
  source_name = source.name;
  status = failed;
  items_seen = 0;
  next_cursor = none;
  attempts = 0;
  error_message = some (sanitize_runtime_error (some error));
  raw_items = [];
  started_at = now;
  finished_at = now;
  next_run_at = some (next_run_time source now);
  metadata = end;
}

-- A factory makes a connector of a source, or raises.
abbrev pub Factory : Type 0
Factory = SourceConfig → Collect ⊎ Error

abbrev pub made_by : Factory ⊎ Error → SourceConfig → Collect ⊎ Error
made_by (inl factory) source = factory source
made_by (inr error) source = inr error

module _ (P : Python) (factories : List (String × Factory)) where
  -- `str(source.metadata.get("connector", source.name))`
  unfoldable pub connector_key : SourceConfig → String
  connector_key source = elim (lookup "connector" source.metadata) [
    | none ↦ source.name
    | some v ↦ text P v
  ]

  abbrev pub created_connector : SourceConfig → Collect ⊎ Error
  created_connector source = made_by (factory_of (connector_key source) factories) source

  abbrev pub run_created : Collect ⊎ Error → SourceConfig → Clock → RuntimeState → Ran
  run_created (inl collect) source clock s = run_connector source collect clock s
  run_created (inr error) source clock s = record {
    record_of = uncreated_record source clock.started error;
    state = record_error source error s;
    sleeps = [];
  }

  -- One turn of the loop in `run_enabled_sources`.
  unfoldable pub run_source : SourceConfig → Clock → RuntimeState → Ran
  run_source source clock s =
      if not source.enabled
      then record {
        record_of = skipped_record source clock.started (field "reason" (str "disabled") end);
        state = s;
        sleeps = [];
      }
      else if not (has (connector_key source) factories)
      then record {
        record_of = skipped_record source clock.started (
            field "reason" (str "connector_not_registered")
              (field "connector" (str (connector_key source)) end));
        state = s;
        sleeps = [];
      }
      else run_created (created_connector source) source clock s

  unfoldable pub run_sources :
      (String → Clock) → List SourceConfig → RuntimeState → List SourceRunRecord × RuntimeState
  run_sources clock [] s = ([], s)
  run_sources clock (source ∷ sources) s =
      let ran = run_source source (clock source.name) s in
      let (records, s') = run_sources clock sources ran.state in (ran.record_of ∷ records, s')

abbrev pub status_success : RunStatus → Bool
status_success success = true
status_success _ = false

abbrev pub status_failed : RunStatus → Bool
status_failed failed = true
status_failed _ = false

abbrev pub status_skipped : RunStatus → Bool
status_skipped skipped = true
status_skipped _ = false

abbrev pub is_success : SourceRunRecord → Bool
is_success r = status_success r.status

abbrev pub is_failed : SourceRunRecord → Bool
is_failed r = status_failed r.status

abbrev pub is_skipped : SourceRunRecord → Bool
is_skipped r = status_skipped r.status

unfoldable pub total_items : List SourceRunRecord → ℕ
total_items [] = 0
total_items (r ∷ rs) = r.items_seen + total_items rs

-- The dict that `run_enabled_sources` returns.
pub record RunResult : Type 0 where
  pub sources_seen : ℕ
  pub sources_succeeded : ℕ
  pub sources_failed : ℕ
  pub sources_skipped : ℕ
  pub items_seen : ℕ
  pub records : List SourceRunRecord

unfoldable pub run_enabled_sources :
    Python
    → List (String × Factory)
    → (String → Clock)
    → List SourceConfig
    → RuntimeState
    → RunResult × RuntimeState
run_enabled_sources P factories clock sources s =
    let (records, s') = run_sources P factories clock sources s in
    (
      record {
        sources_seen = length records;
        sources_succeeded = tally is_success records;
        sources_failed = tally is_failed records;
        sources_skipped = tally is_skipped records;
        items_seen = total_items records;
        records = records;
      },
      s',
    )
