-- ===== src/Persistence/Reports.antt =====
-- What `persist_runs` of worker/sentineldrive_worker/persistence/service.py reports of its sources.
use sentinel_drive.Prelude.{
  ◌≤◌, arith, length, All, ℕ, ◌++◌, String, ◌≡◌, refl, Option, none, some, List, [], ◌∷◌, ◌⊎◌, inl,
  inr, string_Eq,
}
use sentinel_drive.Database.{SessionFault, raised, at_commit, Table}
use sentinel_drive.Value.{Value}
use sentinel_drive.Sanitize.{Error}
use sentinel_drive.Collection.Contracts.{SourceConfig}
use sentinel_drive.Collection.Runtime.{SourceRunRecord}
use sentinel_drive.Persistence.Runs.{
  Store, Ids, Persisted, persisted_state, persist_source_run, not_persisted, committed,
}

-- What is asked of the last report of a source and the others before it: no others, but one at most
-- where the commit raises, and a last one of a failure where the session raises.
abbrev pub EndsAs : Option SessionFault → List Persisted → Persisted → Type 0
EndsAs none others last = others ≡ []
EndsAs (some (raised error)) others last = (others ≡ []) × (last.status ≡ "persistence_failed")
EndsAs (some (at_commit error)) others last =
    (length others ≤ 1) × (last.status ≡ "persistence_failed")

-- The reports of one source.
abbrev pub ReportsOf : Option SessionFault → String → List Persisted → Type 0
ReportsOf fault name mine =
    (others : List Persisted) × (last : Persisted) × (mine ≡ others ++ last ∷ [])
    × All (λ p. p.source_name ≡ name) others
    × (last.source_name ≡ name)
    × EndsAs fault others last

-- The reports of several sources, in their order.
abbrev pub Reported : (String → Option SessionFault) → List String → List Persisted → Type 0
Reported fault [] ps = ps ≡ []
Reported fault (name ∷ names) ps =
    (mine : List Persisted) × (rest : List Persisted) × (ps ≡ mine ++ rest)
    × ReportsOf (fault name) name mine
    × Reported fault names rest

-- The name in a report of success.
abbrev pub Named : String → (Persisted × Store) ⊎ Error → Type 0
Named name (inl (p, store)) = p.source_name ≡ name
Named name (inr error) = Unit

persisted_state-Named :
    (byte_size : Value → ℕ) (x : Table ⊎ Error) (source : SourceConfig) (r : SourceRunRecord)
    (source_id : Value) (ids : Ids) (now : ℕ) (store : Store) (counts : ℕ × ℕ) (raw : Table)
    → Named source.name (persisted_state byte_size x source r source_id ids now store counts raw)
persisted_state-Named byte_size (inl states) source r source_id ids now store counts raw = refl
persisted_state-Named byte_size (inr error) source r source_id ids now store counts raw = tt

pub persist_source_run-Named :
    (byte_size : Value → ℕ) (source : SourceConfig) (r : SourceRunRecord) (ids : Ids) (now : ℕ)
    (store : Store)
    → Named source.name (persist_source_run byte_size source r ids now store)
unfolding persist_source_run
persist_source_run-Named byte_size source r ids now store =
    persisted_state-Named byte_size _ source r _ ids now _ _ _

pub committed-ReportsOf :
    (fault : Option SessionFault) (x : (Persisted × Store) ⊎ Error) (source : SourceConfig)
    (r : SourceRunRecord) (store : Store)
    → Named source.name x
    → ReportsOf fault source.name (committed fault x source r store).0
committed-ReportsOf none (inl (p, store')) source r store h = ([], p, refl, tt, h, refl)
committed-ReportsOf none (inr error) source r store h =
    ([], not_persisted source r error, refl, tt, refl, refl)
committed-ReportsOf (some (raised error)) x source r store h =
    ([], not_persisted source r error, refl, tt, refl, (refl, refl))
committed-ReportsOf (some (at_commit error)) (inl (p, store')) source r store h =
    (p ∷ [], not_persisted source r error, refl, (h, tt), refl, (omega arith, refl))
committed-ReportsOf (some (at_commit error)) (inr own) source r store h =
    ([], not_persisted source r own, refl, tt, refl, (omega arith, refl))
