-- ===== src/Collection/Runtime.antt =====
-- worker/sentineldrive_worker/connectors/runtime.py: sources are collected with a limited rate, and
-- an attempt that fails is repeated. What the connector does in attempt number `n` is a function of
-- the caller (its timeout is an error like others), and so are the clock's readings. A call of
-- `sleeper` is an entry of a list.
pub mod Attempts
pub mod State
use Prim.Native.Nat.{min}
use sentinel_drive.Prelude.{
  ℕ, suc, zero, ◌+◌, ◌-◌, ◌*◌, ◌/◌, ◌^◌, String, ◌≡◌, Bool, true, false, ◌||◌, not, Option, none,
  some, List, [], ◌∷◌, ◌++◌, ◌⊎◌, inl, inr, map, length, if◌then◌else◌, ltb, tally, ◌==◌, string_Eq,
}
use sentinel_drive.Value.{
  Python, Value, none_value, str, Fields, end, field, from_items, lookup, text,
}
use sentinel_drive.Sanitize.{Error, sanitize_runtime_error}
use sentinel_drive.Collection.Contracts.{
  SourceConfig, RetryPolicy, ConnectorResult, RawPayload, to_raw_record, magnitude,
}
use sentinel_drive.Collection.Registry.{has, factory_of}

-- A dict by source name.
abbrev pub Map : Type 0 → Type 0
Map A = String → Option A

abbrev pub set_key : {A : Type 0} → String → A → Map A → Map A
set_key k a d j = if k == j then some a else d j

abbrev pub drop_key : {A : Type 0} → String → Map A → Map A
drop_key k d j = if k == j then none else d j

pub record RuntimeState : Type 0 where
  pub cursors : Map (Option String)
  pub next_allowed_at : Map ℕ
  pub errors : Map String
  pub attempts : Map ℕ
  pub last_success_at : Map ℕ

unfoldable pub record_success : SourceConfig → Option String → ℕ → RuntimeState → RuntimeState
record_success source cursor now s = record {
  cursors = set_key source.name cursor s.cursors;
  next_allowed_at = s.next_allowed_at;
  errors = drop_key source.name s.errors;
  attempts = s.attempts;
  last_success_at = set_key source.name now s.last_success_at;
}

unfoldable pub record_error : SourceConfig → Error → RuntimeState → RuntimeState
record_error source error s = record {
  cursors = s.cursors;
  next_allowed_at = s.next_allowed_at;
  errors = set_key source.name (sanitize_runtime_error (some error)) s.errors;
  attempts = s.attempts;
  last_success_at = s.last_success_at;
}

unfoldable pub record_attempt : SourceConfig → ℕ → RuntimeState → RuntimeState
record_attempt source n s = record {
  cursors = s.cursors;
  next_allowed_at = s.next_allowed_at;
  errors = s.errors;
  attempts = set_key source.name n s.attempts;
  last_success_at = s.last_success_at;
}

-- A minute, shared among the calls that the limit allows, in microseconds.
unfoldable pub set_next_rate_limit : SourceConfig → ℕ → RuntimeState → RuntimeState
set_next_rate_limit source monotonic s = record {
  cursors = s.cursors;
  next_allowed_at =
      set_key source.name (monotonic + 60000000 / magnitude source.rate_limit_per_minute)
        s.next_allowed_at;
  errors = s.errors;
  attempts = s.attempts;
  last_success_at = s.last_success_at;
}

abbrev pub or_zero : Option ℕ → ℕ
or_zero none = 0
or_zero (some n) = n

-- `sleeper(seconds)` if there is something to wait for.
abbrev pub sleep_for : ℕ → List ℕ
sleep_for zero = []
sleep_for (suc n) = suc n ∷ []

unfoldable pub wait_for_rate_limit : SourceConfig → ℕ → RuntimeState → List ℕ
wait_for_rate_limit source monotonic s =
    sleep_for (or_zero (s.next_allowed_at source.name) - monotonic)

-- The wait after attempt number `suc n`.
unfoldable pub backoff_after : RetryPolicy → ℕ → ℕ
backoff_after policy n = min (policy.backoff * 2 ^ n) policy.max_backoff

-- How the attempts end: their number, the state, and the sleeps.
pub data Ending : Type 0 where
  collected : ConnectorResult → Ending
  gave_up : Error → Ending

pub record Attempted : Type 0 where
  pub ending : Ending
  pub made : ℕ
  pub state : RuntimeState
  pub sleeps : List ℕ

abbrev pub Collect : Type 0
Collect = ℕ → Option String → ConnectorResult ⊎ Error

-- `try` and `except`
abbrev pub on_result :
    ConnectorResult ⊎ Error → (ConnectorResult → Attempted) → (Error → Attempted) → Attempted
on_result (inl result) f g = f result
on_result (inr error) f g = g error

module _ (source : SourceConfig) (collect : Collect) (cursor : Option String) (now : ℕ) where
  abbrev pub succeeded : ConnectorResult → ℕ → RuntimeState → Attempted
  succeeded result n s = record {
    ending = collected result;
    made = suc n;
    state = record_success source result.next_cursor now (record_attempt source (suc n) s);
    sleeps = [];
  }

  abbrev pub state_after_error : Error → ℕ → RuntimeState → RuntimeState
  state_after_error error n s = record_error source error (record_attempt source (suc n) s)

  abbrev pub failed_for_good : Error → ℕ → RuntimeState → Attempted
  failed_for_good error n s = record {
    ending = gave_up error;
    made = suc n;
    state = state_after_error error n s;
    sleeps = [];
  }

  -- A later end, behind the sleep before it.
  abbrev pub after_sleep : ℕ → Attempted → Attempted
  after_sleep backoff a = record {
    ending = a.ending;
    made = a.made;
    state = a.state;
    sleeps = sleep_for backoff ++ a.sleeps;
  }

  -- The loop: attempt number `suc n`, after which `left` more are allowed.
  unfoldable pub run_attempts : ℕ → ℕ → RuntimeState → Attempted
  run_attempts zero n s =
      on_result (collect (suc n) cursor) (λ result. succeeded result n s)
        (λ error. failed_for_good error n s)
  run_attempts (suc left) n s =
      on_result (collect (suc n) cursor) (λ result. succeeded result n s)
        (λ error.
          after_sleep (backoff_after source.retry_policy n)
            (run_attempts left (suc n) (state_after_error error n s)))

pub data RunStatus : Type 0 where
  success : RunStatus
  failed : RunStatus
  skipped : RunStatus

pub record SourceRunRecord : Type 0 where
  pub source_name : String
  pub status : RunStatus
  pub items_seen : ℕ
  pub next_cursor : Option String
  pub attempts : ℕ
  pub error_message : Option String
  pub raw_items : List Fields
  pub started_at : ℕ
  pub finished_at : ℕ
  pub next_run_at : Option ℕ
  pub metadata : Fields

-- `next_run_time`
unfoldable pub next_run_time : SourceConfig → ℕ → ℕ
next_run_time source base = base + magnitude source.sync_interval

abbrev pub run_record : SourceConfig → ℕ → ℕ → Ending → ℕ → SourceRunRecord
run_record source started finished (collected result) made = record {
  source_name = source.name;
  status = success;
  items_seen = length result.items;
  next_cursor = result.next_cursor;
  attempts = made;
  error_message = none;
  raw_items = map to_raw_record result.items;
  started_at = started;
  finished_at = finished;
  next_run_at = some (next_run_time source finished);
  metadata = result.metadata;
}
run_record source started finished (gave_up error) made = record {
  source_name = source.name;
  status = failed;
  items_seen = 0;
  next_cursor = none;
  attempts = made;
  error_message = some (sanitize_runtime_error (some error));
  raw_items = [];
  started_at = started;
  finished_at = finished;
  next_run_at = some (next_run_time source finished);
  metadata = end;
}

-- The clock's readings in a run: the wall clock at its start and end, and the monotonic clock before
-- the wait and at the end.
pub record Clock : Type 0 where
  pub started : ℕ
  pub finished : ℕ
  pub monotonic_start : ℕ
  pub monotonic_end : ℕ

abbrev pub or_cursor : Option (Option String) → Option String → Option String
or_cursor none cursor = cursor
or_cursor (some cursor) _ = cursor

-- `state.cursors.get(source.name, source.cursor)`
abbrev pub cursor_of : SourceConfig → RuntimeState → Option String
cursor_of source s = or_cursor (s.cursors source.name) source.cursor

pub record Ran : Type 0 where
  pub record_of : SourceRunRecord
  pub state : RuntimeState
  pub sleeps : List ℕ

unfoldable pub run_connector : SourceConfig → Collect → Clock → RuntimeState → Ran
run_connector source collect clock s =
    let waits = wait_for_rate_limit source clock.monotonic_start s in
    let a =
      run_attempts source collect (cursor_of source s) clock.finished source.retry_policy.attempts 0
        s in
    record {
      record_of = run_record source clock.started clock.finished a.ending a.made;
      state = set_next_rate_limit source clock.monotonic_end a.state;
      sleeps = waits ++ a.sleeps;
    }
