-- ===== src/Collection/Enabled/Sources.antt =====
-- A run over all sources.
use sentinel_drive.Prelude.{
  ℕ, ◌+◌, String, ◌≡◌, refl, not, List, [], ◌∷◌, ◌⊎◌, inl, inr, length, map, tally, if◌then◌else◌,
  arith, Bool-cases,
}
use sentinel_drive.Value.{Python}
use sentinel_drive.Sanitize.{Error}
use sentinel_drive.Collection.Contracts.{SourceConfig}
use sentinel_drive.Collection.Registry.{has}
use sentinel_drive.Collection.Runtime.{
  RuntimeState, SourceRunRecord, RunStatus, success, failed, skipped, Clock, Collect, Ending,
  collected, gave_up, run_record, run_connector, run_attempts, cursor_of,
}
use sentinel_drive.Collection.Enabled.{
  Factory, run_created, created_connector, connector_key, run_source, run_sources,
  run_enabled_sources, is_success, status_success, status_failed, status_skipped, is_failed,
  is_skipped,
}

status_kinds :
    (s : RunStatus)
    → (if status_success s then 1 else 0)
        + (if status_failed s then 1 else 0)
        + (if status_skipped s then 1 else 0)
      ≡ 1
status_kinds success = refl
status_kinds failed = refl
status_kinds skipped = refl

tally_kinds :
    (rs : List SourceRunRecord)
    → tally is_success rs + tally is_failed rs + tally is_skipped rs ≡ length rs
tally_kinds [] = refl
tally_kinds (r ∷ rs) = omega (arith, status_kinds r.status, tally_kinds rs)

run_record-name :
    (source : SourceConfig) (started finished : ℕ) (ending : Ending) (made : ℕ)
    → (run_record source started finished ending made).source_name ≡ source.name
run_record-name source started finished (collected r) made = refl
run_record-name source started finished (gave_up e) made = refl

module _ (P : Python) (factories : List (String × Factory)) where
  created-name :
      (x : Collect ⊎ Error) (source : SourceConfig) (clock : Clock) (s : RuntimeState)
      → (run_created P factories x source clock s).record_of.source_name ≡ source.name
  unfolding run_connector
  created-name (inl collect) source clock s =
      let a =
        run_attempts source collect (cursor_of source s) clock.finished source.retry_policy.attempts
          0 s in
      run_record-name source clock.started clock.finished a.ending a.made
  created-name (inr e) source clock s = refl

  run_source-name :
      (source : SourceConfig) (clock : Clock) (s : RuntimeState)
      → (run_source P factories source clock s).record_of.source_name ≡ source.name
  unfolding run_source
  run_source-name source clock s = elim (Bool-cases (not source.enabled)) [
    | inl e ↦ rw e refl
    | inr e ↦ elim (Bool-cases (not (has (connector_key P factories source) factories))) [
      | inl h ↦ rw (e, h) refl
      | inr h ↦ rw (e, h) (created-name (created_connector P factories source) source clock s)
    ]
  ]

  run_sources-names :
      (clock : String → Clock) (sources : List SourceConfig) (s : RuntimeState)
      → map (λ r. r.source_name) (run_sources P factories clock sources s).0
        ≡ map (λ s. s.name) sources
  unfolding run_sources
  run_sources-names clock [] s = refl
  run_sources-names clock (source ∷ sources) s =
      let ran = run_source P factories source (clock source.name) s in
      cc (run_source-name source (clock source.name) s, run_sources-names clock sources ran.state)

-- Every source gets one record, in the order of the configuration, also those that are disabled, have
-- no connector or cannot be collected; and each is counted once.
pub run_enabled_sources_counts :
    (P : Python) (factories : List (String × Factory)) (clock : String → Clock)
    (sources : List SourceConfig) (s : RuntimeState)
    → let result = (run_enabled_sources P factories clock sources s).0 in
      (map (λ r. r.source_name) result.records ≡ map (λ s. s.name) sources)
      × (result.sources_succeeded + result.sources_failed + result.sources_skipped
          ≡ result.sources_seen)
unfolding run_enabled_sources
run_enabled_sources_counts P factories clock sources s = (
  run_sources-names P factories clock sources s,
  tally_kinds (run_sources P factories clock sources s).0,
)
