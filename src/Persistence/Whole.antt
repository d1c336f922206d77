-- ===== src/Persistence/Whole.antt =====
-- `persist_runs` and `run_and_persist_enabled_sources` of
-- worker/sentineldrive_worker/persistence/service.py.
use sentinel_drive.Prelude.{
  ℕ, suc, ◌+◌, ◌++◌, Bool-cases, String, ◌<>◌, ◌≡◌, refl, sym, ◌∙◌, Option, none, some, List, [],
  ◌∷◌, ◌⊎◌, inl, inr, length, map, tally, ◌==◌, string_Eq, beq_refl, Option-cases, All,
}
use mathlib.Core.Path.{subst}
use mathlib.Core.Option.{some-injective}
use sentinel_drive.Database.{SessionFault}
use sentinel_drive.Value.{Python, Value}
use sentinel_drive.Sanitize.{Error}
use sentinel_drive.Collection.Contracts.{SourceConfig}
use sentinel_drive.Collection.Runtime.{SourceRunRecord, RuntimeState, Clock}
use sentinel_drive.Collection.Enabled.{RunResult, Factory, run_enabled_sources}
use sentinel_drive.Collection.Enabled.Sources.{run_enabled_sources_counts}
use sentinel_drive.Persistence.Reports.{
  ReportsOf, Reported, committed-ReportsOf, persist_source_run-Named,
}
use sentinel_drive.Persistence.Runs.{
  Store, Ids, Persisted, persist_source_run, committed, config_of,
}

abbrev pub key_error : String → Error
key_error name = record { message = "'" <> name <> "'"; class_name = "KeyError" }

abbrev pub option_or : {A B : Type 0} → Option A → B → (A → B) → B
option_or none b f = b
option_or (some a) b f = f a

abbrev pub prepend :
    List Persisted → (List Persisted × Store) ⊎ Error → (List Persisted × Store) ⊎ Error
prepend mine (inl (ps, store)) = inl (mine ++ ps, store)
prepend mine (inr error) = inr error

module _ (byte_size : Value → ℕ) (fault : String → Option SessionFault) (ids : ℕ → Ids)
    (configs : List SourceConfig) where
  -- The transaction of a record, as committed or rolled back.
  abbrev pub persisted_record :
      SourceConfig → SourceRunRecord → ℕ → ℕ → Store → List Persisted × Store
  persisted_record source r n now store =
      committed (fault r.source_name) (persist_source_run byte_size source r (ids n) now store)
        source r store

  -- The loop; a record of no known source raises.
  unfoldable pub persist_records :
      ℕ → ℕ → List SourceRunRecord → Store → (List Persisted × Store) ⊎ Error
  persist_records n now [] store = inl ([], store)
  persist_records n now (r ∷ rs) store =
      option_or (config_of r.source_name configs) (inr (key_error r.source_name)) (λ source.
        let (mine, store') = persisted_record source r n now store in
        prepend mine (persist_records (suc n) now rs store'))

pub record PersistedRun : Type 0 where
  pub sources : ℕ
  pub raw_created : ℕ
  pub raw_updated : ℕ
  pub failed_count : ℕ
  pub records : List Persisted

unfoldable pub sum_created : List Persisted → ℕ
sum_created [] = 0
sum_created (p ∷ ps) = p.items_created + sum_created ps

unfoldable pub sum_updated : List Persisted → ℕ
sum_updated [] = 0
sum_updated (p ∷ ps) = p.items_updated + sum_updated ps

abbrev pub summed : (List Persisted × Store) ⊎ Error → (PersistedRun × Store) ⊎ Error
summed (inr error) = inr error
summed (inl (ps, store)) = inl (
  record {
    sources = length ps;
    raw_created = sum_created ps;
    raw_updated = sum_updated ps;
    failed_count = tally (λ p. p.status == "persistence_failed") ps;
    records = ps;
  },
  store,
)

unfoldable pub persist_runs :
    (Value → ℕ)
    → (String → Option SessionFault)
    → (ℕ → Ids)
    → ℕ
    → List SourceConfig
    → RunResult
    → Store
    → (PersistedRun × Store) ⊎ Error
persist_runs byte_size fault ids now configs result store =
    summed (persist_records byte_size fault ids configs 0 now result.records store)

-- Collection and persistence of a configuration.
unfoldable pub run_and_persist_enabled_sources :
    Python
    → List (String × Factory)
    → (String → Clock)
    → (Value → ℕ)
    → (String → Option SessionFault)
    → (ℕ → Ids)
    → ℕ
    → List SourceConfig
    → RuntimeState
    → Store
    → ((PersistedRun × Store) ⊎ Error) × RuntimeState
run_and_persist_enabled_sources P factories clock byte_size fault ids now configs s store =
    let (result, s') = run_enabled_sources P factories clock configs s in
    (persist_runs byte_size fault ids now configs result store, s')

-- The source of a name.
abbrev Found : List SourceConfig → String → Type 0
Found configs name =
    (source : SourceConfig) × (config_of name configs ≡ some source) × (source.name ≡ name)

config_of-name :
    (name : String) (configs : List SourceConfig) (source : SourceConfig)
    → config_of name configs ≡ some source
    → source.name ≡ name
unfolding config_of
config_of-name name [] source h = cc
config_of-name name (s ∷ configs) source h = elim (Option-cases (config_of name configs)) [
  | inr (found, e) ↦ config_of-name name configs source (e ∙ rw e at h)
  | inl e ↦ elim (Bool-cases (s.name == name)) [
    | inl same ↦
        subst (λ x. x.name ≡ name) (some-injective s source (rw (e, same) at h))
          ((string_Eq.equal_iff s.name name).0 same)
    | inr differs ↦ cc (rw (e, differs) at h)
  ]
]

config_of-head : (s : SourceConfig) (configs : List SourceConfig) → Found (s ∷ configs) s.name
unfolding config_of
config_of-head s configs = elim (Option-cases (config_of s.name configs)) [
  | inl e ↦ (s, rw (e, beq_refl s.name) refl, refl)
  | inr (found, e) ↦ (found, rw e refl, config_of-name s.name configs found e)
]

config_of-tail :
    (s : SourceConfig) (configs : List SourceConfig) (name : String)
    → Found configs name
    → Found (s ∷ configs) name
unfolding config_of
config_of-tail s configs name (found, e, same) = (found, rw e refl, same)

tail-All :
    (s : SourceConfig) (configs : List SourceConfig) (names : List String)
    → All (Found configs) names
    → All (Found (s ∷ configs)) names
tail-All s configs [] h = tt
tail-All s configs (name ∷ names) (f, h) =
    (config_of-tail s configs name f, tail-All s configs names h)

configs-Found : (configs : List SourceConfig) → All (Found configs) (map (λ s. s.name) configs)
configs-Found [] = tt
configs-Found (s ∷ configs) = (
  config_of-head s configs,
  tail-All s configs (map (λ s. s.name) configs) (configs-Found configs),
)

abbrev AllReported :
    (String → Option SessionFault) → List String → (List Persisted × Store) ⊎ Error → Type 0
AllReported fault names (inl (ps, store)) = Reported fault names ps
AllReported fault names (inr error) = ⊥

prepend-AllReported :
    (fault : String → Option SessionFault) (name : String) (names : List String)
    (mine : List Persisted) (x : (List Persisted × Store) ⊎ Error)
    → ReportsOf (fault name) name mine
    → AllReported fault names x
    → AllReported fault (name ∷ names) (prepend mine x)
prepend-AllReported fault name names mine (inl (ps, store)) h hs = (mine, ps, refl, h, hs)
prepend-AllReported fault name names mine (inr error) h hs = hs

abbrev record_names : List SourceRunRecord → List String
record_names = map (λ r. r.source_name)

persist_records-AllReported :
    (byte_size : Value → ℕ) (fault : String → Option SessionFault) (ids : ℕ → Ids)
    (configs : List SourceConfig) (n now : ℕ) (rs : List SourceRunRecord) (store : Store)
    → All (Found configs) (record_names rs)
    → AllReported fault
        (record_names rs)
        (persist_records byte_size fault ids configs n now rs store)
unfolding persist_records
persist_records-AllReported byte_size fault ids configs n now [] store h = refl
persist_records-AllReported byte_size fault ids configs n now (r ∷ rs) store
      ((source, e, same), h) =
    let (mine, store') = persisted_record byte_size fault ids configs source r n now store in
    subst
      (λ o. AllReported fault (record_names (r ∷ rs)) (
        option_or o (inr (key_error r.source_name)) (λ source.
          let (mine, store') = persisted_record byte_size fault ids configs source r n now store in
          prepend mine (persist_records byte_size fault ids configs (suc n) now rs store'))))
      (sym e)
      (prepend-AllReported fault r.source_name (record_names rs) mine
        (persist_records byte_size fault ids configs (suc n) now rs store')
        (subst (λ name. ReportsOf (fault r.source_name) name mine) same
          (committed-ReportsOf (fault r.source_name)
            (persist_source_run byte_size source r (ids n) now store) source r store
            (persist_source_run-Named byte_size source r (ids n) now store)))
        (persist_records-AllReported byte_size fault ids configs (suc n) now rs store' h))

-- The run completed, and its reports, which it counts, are of the sources in their order.
abbrev pub Completed :
    (String → Option SessionFault) → List String → (PersistedRun × Store) ⊎ Error → Type 0
Completed fault names (inl (run, store)) =
    (run.sources ≡ length run.records) × Reported fault names run.records
Completed fault names (inr error) = ⊥

summed-Completed :
    (fault : String → Option SessionFault) (names : List String)
    (x : (List Persisted × Store) ⊎ Error)
    → AllReported fault names x
    → Completed fault names (summed x)
summed-Completed fault names (inl (ps, store)) h = (refl, h)
summed-Completed fault names (inr error) h = h

-- Collecting and persisting a configuration completes, whatever the connectors, the factories and the
-- transactions do. No record lacks its source, and the reports are of the configuration's sources in
-- their order: one of each source, with one more at most before it where the commit raises. Where the
-- session raises, at the commit or before, the source's last report says "persistence_failed". The
-- number of sources that the run gives is that of the reports.
pub run_and_persist-Completed :
    (P : Python) (factories : List (String × Factory)) (clock : String → Clock)
    (byte_size : Value → ℕ) (fault : String → Option SessionFault) (ids : ℕ → Ids) (now : ℕ)
    (configs : List SourceConfig) (s : RuntimeState) (store : Store)
    → Completed fault
        (map (λ s. s.name) configs)
        (run_and_persist_enabled_sources P factories clock byte_size fault ids now configs s
          store).0
unfolding run_and_persist_enabled_sources persist_runs
run_and_persist-Completed P factories clock byte_size fault ids now configs s store =
    let result = (run_enabled_sources P factories clock configs s).0 in
    let (names, _) = run_enabled_sources_counts P factories clock configs s in
    subst (λ ns. Completed fault ns (persist_runs byte_size fault ids now configs result store))
      names
      (summed-Completed fault (record_names result.records)
        (persist_records byte_size fault ids configs 0 now result.records store)
        (persist_records-AllReported byte_size fault ids configs 0 now result.records store
          (subst (All (Found configs)) (sym names) (configs-Found configs))))
