-- ===== src/Pipeline.antt =====
-- The processing pipeline, worker/sentineldrive_worker/pipeline.py: four stages one after another,
-- each of which may raise without stopping the others. A stage is the dict that it returns, or the
-- error that it raises; what a stage does to the database is part of the caller's functions.
pub mod Stages
use sentinel_drive.Prelude.{
  ℤ, ℕ, String, ◌≡◌, Bool, true, false, ◌||◌, not, Option, none, some, List, [], ◌∷◌, ◌++◌, ◌⊎◌,
  inl, inr, any, if◌then◌else◌, ◌==◌, string_Eq, pos, contains,
}
use sentinel_drive.Text.{take_text}
use sentinel_drive.Value.{
  Value, none_value, int, str, list, dict, Fields, end, from_items, from_list, get, has_key, truthy,
  dict_or_empty, or_else, to_list,
}
use sentinel_drive.Value.Equality.{value_eq}
use sentinel_drive.Sanitize.{Error}
use sentinel_drive.Normalization.Merge.{items_or_empty}

pub data Stage : Type 0 where
  collection : Stage
  normalization : Stage
  scoring : Stage
  alerts : Stage

abbrev pub stage_name : Stage → String
stage_name collection = "collection"
stage_name normalization = "normalization"
stage_name scoring = "scoring"
stage_name alerts = "alerts"

-- `run_stage`; the message is that of the exception.
abbrev pub run_stage : Stage → Fields ⊎ Error → Fields
run_stage stage (inl result) = result
run_stage stage (inr error) = from_items (
    ("status", str "failed")
    ∷ ("stage", str (stage_name stage))
    ∷ ("error_message", str (take_text 500 error.message))
    ∷ [])

abbrev pub get_or : Fields → String → Value → Value
get_or d key default = if has_key d key then get d key else default

abbrev pub has_status : List String → Value → Bool
has_status statuses (dict r) = any (λ s. value_eq (get r "status") (str s)) statuses
has_status statuses _ = false

abbrev pub record_of : Value → Fields
record_of (dict r) = r
record_of _ = end

-- An entry of the error list about a record of a source.
abbrev pub source_error : String → Value → Value
source_error stage r = dict (
    from_items (
      ("stage", str stage)
      ∷ ("source_name", get (record_of r) "source_name")
      ∷ ("status", get (record_of r) "status")
      ∷ ("error_message", get (record_of r) "error_message")
      ∷ []))

-- An entry about a row, by its identifier's key.
abbrev pub row_error : String → String → Value → Value
row_error stage key r = dict (
    from_items (
      ("stage", str stage)
      ∷ (key, get (record_of r) key)
      ∷ ("error_message", get (record_of r) "error_message")
      ∷ []))

-- The generator expressions: an entry for each record of one of the statuses.
unfoldable pub errors_of : List String → (Value → Value) → List Value → List Value
errors_of statuses entry [] = []
errors_of statuses entry (r ∷ rs) =
    let rest = errors_of statuses entry rs in if has_status statuses r then entry r ∷ rest else rest

abbrev pub records_in : Value → List Value
records_in (dict d) = items_or_empty (get d "records")
records_in _ = []

-- `extend_stage_errors`, as the entries that it appends
abbrev pub record_errors : Stage → Fields → List Value
record_errors collection result =
    errors_of ("failed" ∷ "persistence_failed" ∷ []) (source_error "collection")
      (items_or_empty (get result "records"))
    ++ errors_of ("persistence_failed" ∷ []) (source_error "persistence")
        (records_in (get result "persisted"))
record_errors normalization result =
    errors_of ("failed" ∷ []) (row_error "normalization" "raw_intelligence_id")
      (items_or_empty (get result "records"))
record_errors scoring result =
    errors_of ("failed" ∷ []) (row_error "scoring" "threat_intelligence_id")
      (items_or_empty (get result "records"))
record_errors alerts result = []

abbrev pub is_fatal : Fields → Bool
is_fatal result = value_eq (get result "status") (str "failed")

unfoldable pub stage_errors : Stage → Fields → List Value
stage_errors stage result =
    if is_fatal result
    then dict (
        from_items (
          ("stage", str (stage_name stage))
          ∷ ("error_message", get_or result "error_message" (str "未知阶段失败"))
          ∷ []))
      ∷ []
    else record_errors stage result

unfoldable pub fatal_stage_errors : List Fields → Bool
fatal_stage_errors = any is_fatal

abbrev pub skipped_alerts : Fields
skipped_alerts = from_items (
    ("status", str "skipped")
    ∷ ("created", int (pos 0))
    ∷ ("evaluated", int (pos 0))
    ∷ ("reason", str "backend_alert_evaluation_not_imported_by_worker")
    ∷ [])

-- `int(value)` on a count; the services' dicts count in whole numbers.
abbrev pub count_of : Value → ℤ
count_of (int n) = n
count_of _ = pos 0

-- `int(d.get(key, 0))`
abbrev pub count_at : Fields → String → ℤ
count_at d key = count_of (get_or d key (int (pos 0)))

-- The counts that the pipeline copies from the stages' dicts.
unfoldable pub stage_counts : Fields → Fields → Fields → Fields → List (String × ℤ)
stage_counts c n k a =
    let persisted = record_of (get c "persisted") in
    ("sources_seen", count_at c "sources_seen")
    ∷ ("sources_succeeded", count_at c "sources_succeeded")
    ∷ ("sources_failed", count_at c "sources_failed")
    ∷ ("sources_skipped", count_at c "sources_skipped")
    ∷ ("raw_created", count_at persisted "raw_created")
    ∷ ("raw_updated", count_at persisted "raw_updated")
    ∷ ("normalization_rows_seen", count_at n "raw_seen")
    ∷ ("normalized", count_at n "normalized")
    ∷ ("normalization_failed", count_at n "failed")
    ∷ ("scoring_rows_seen", count_at k "rows_seen")
    ∷ ("scored", count_at k "scored")
    ∷ ("scoring_failed", count_at k "failed")
    ∷ ("alert_evaluation_count", count_of (get_or a "evaluated" (get_or a "created" (int (pos 0)))))
    ∷ ("alerts_created", count_at a "created")
    ∷ []

-- The stages' dicts, the list of errors that the pipeline gathers, and the counts.
pub record Result : Type 0 where
  pub status : String
  pub stage_failures : List Value
  pub collected : Fields
  pub normalized : Fields
  pub scored : Fields
  pub alerted : Fields
  pub counts : List (String × ℤ)

-- The alert stage, which there need not be, and its errors.
abbrev pub alert_stage : Option (Fields ⊎ Error) → Fields
alert_stage none = skipped_alerts
alert_stage (some x) = run_stage alerts x

abbrev pub alert_errors : Option (Fields ⊎ Error) → List Value
alert_errors none = []
alert_errors (some x) = stage_errors alerts (run_stage alerts x)

-- A state `S` of the database goes through the stages, whatever they return.
abbrev pub Step : Type 0 → Type 0
Step S = S → (Fields ⊎ Error) × S

module _ {S : Type 0} where
  abbrev pub optional_step : Option (Step S) → S → Option (Fields ⊎ Error) × S
  optional_step none s = (none, s)
  optional_step (some f) s = (some (f s).0, (f s).1)

  unfoldable pub run_processing_pipeline :
      Step S → Step S → Step S → Option (Step S) → S → Result × S
  run_processing_pipeline collect normalize score evaluate s =
      let (c, s₁) = collect s in
      let (n, s₂) = normalize s₁ in
      let (k, s₃) = score s₂ in
      let (a, s₄) = optional_step evaluate s₃ in
      let stages =
        run_stage collection c
        ∷ run_stage normalization n
        ∷ run_stage scoring k
        ∷ alert_stage a
        ∷ [] in
      (
        record {
          status = if fatal_stage_errors stages then "completed_with_errors" else "completed";
          stage_failures =
              stage_errors collection (run_stage collection c)
              ++ (stage_errors normalization (run_stage normalization n)
                  ++ (stage_errors scoring (run_stage scoring k) ++ alert_errors a));
          collected = run_stage collection c;
          normalized = run_stage normalization n;
          scored = run_stage scoring k;
          alerted = alert_stage a;
          counts =
              stage_counts (run_stage collection c) (run_stage normalization n)
                (run_stage scoring k) (alert_stage a);
        },
        s₄,
      )
