-- ===== src/Normalization/Service.antt =====
-- The normalisation service, worker/sentineldrive_worker/normalization/service.py: from the raw rows
-- that wait to the rows of threat intelligence. A new identifier (`uuid4`) is an argument, and the
-- normalisers, which the registry holds, are functions of the caller that may raise.
pub mod Upsert
pub mod Queue
use sentinel_drive.Prelude.{
  ℕ, suc, String, Bool, true, false, ◌&&◌, ◌||◌, Option, none, some, List, [], ◌∷◌, ◌++◌, ◌⊎◌, inl,
  inr, length, tally, keep, take, if◌then◌else◌, ltb, sort_by, ◌==◌, string_Eq,
}
use sentinel_drive.Value.{Python, Value, none_value, str, time, text_or_none}
use sentinel_drive.Value.Equality.{value_eq}
use sentinel_drive.Value.Row.{Row, with_column, with_columns}
use sentinel_drive.Database.{
  SessionFault, raised, at_commit, Table, column_is, select_first, update_where, insert_row,
}
use sentinel_drive.Sanitize.{Error, sanitize_error}
use sentinel_drive.Normalization.Record.{
  NormalizedRecord, SourceAttribution, normalized_insert_values,
}
use sentinel_drive.Normalization.Merge.{merge_normalized, min_datetime, empty_row}
use sentinel_drive.Normalization.Registry.{Registry, resolve}

pub data Action : Type 0 where
  created : Action
  updated : Action

-- The row's identifier, what was done, and the table after it.
pub record Upserted : Type 0 where
  pub intelligence_id : Value
  pub action : Action
  pub table : Table

-- The row is inserted if there is none of its key, and else merged into the one there is.
abbrev pub upsert_at : Option Row → NormalizedRecord → Value → ℕ → Table → Upserted
upsert_at none incoming new_id now table = record {
  intelligence_id = new_id;
  action = created;
  table = insert_row (with_columns empty_row (normalized_insert_values incoming new_id now)) table;
}
upsert_at (some existing) incoming new_id now table = record {
  intelligence_id = existing "id";
  action = updated;
  table =
      update_where (column_is "id" (existing "id")) (merge_normalized existing incoming now) table;
}

unfoldable pub upsert_normalized_record : NormalizedRecord → Value → ℕ → Table → Upserted
upsert_normalized_record incoming new_id now table =
    upsert_at (select_first (column_is "dedup_key" (str incoming.dedup_key)) table) incoming new_id
      now table

-- The columns that are written for a new link and for a known one.
abbrev pub link_values : SourceAttribution → ℕ → List (String × Value)
link_values attribution now =
    ("source_id", attribution.source_id)
    ∷ ("raw_intelligence_id", attribution.raw_intelligence_id)
    ∷ ("source_name", str attribution.source_name)
    ∷ ("source_url", str attribution.source_url)
    ∷ ("external_id", text_or_none attribution.external_id)
    ∷ ("last_seen_at", time attribution.last_seen_at)
    ∷ ("updated_at", time now)
    ∷ []

abbrev pub is_link_of : Value → SourceAttribution → Row → Bool
is_link_of intelligence_id attribution row =
    value_eq (row "threat_intelligence_id") intelligence_id
    && value_eq (row "source_url") (str attribution.source_url)

unfoldable pub upsert_link : Value → SourceAttribution → Value → ℕ → Table → Table
upsert_link intelligence_id attribution new_id now table =
    elim (select_first (is_link_of intelligence_id attribution) table) [
      | some existing ↦
          update_where (column_is "id" (existing "id"))
            (link_values attribution now
              ++ ((
                "first_seen_at",
                min_datetime (existing "first_seen_at") attribution.first_seen_at,
              )
                  ∷ []))
            table
      | none ↦
          insert_row
            (with_columns empty_row (
              link_values attribution now
              ++ (("id", new_id)
                  ∷ ("threat_intelligence_id", intelligence_id)
                  ∷ ("first_seen_at", time attribution.first_seen_at)
                  ∷ ("created_at", time now)
                  ∷ [])))
            table
    ]

unfoldable pub upsert_source_attribution : Value → NormalizedRecord → Value → ℕ → Table → Table
upsert_source_attribution intelligence_id incoming new_id now table = elim incoming.attribution [
  | none ↦ table
  | some attribution ↦ upsert_link intelligence_id attribution new_id now table
]

-- The three tables that the service writes.
pub record Store : Type 0 where
  pub raw : Table
  pub intelligence : Table
  pub links : Table

-- The dict that is reported for a raw row.
pub data Report : Type 0 where
  normalized_row : Value → Value → Action → String → Report
  failed_row : Value → String → Report

abbrev pub is_normalized : Report → Bool
is_normalized (normalized_row _ _ _ _) = true
is_normalized (failed_row _ _) = false

abbrev pub is_failed : Report → Bool
is_failed (normalized_row _ _ _ _) = false
is_failed (failed_row _ _) = true

pub record Summary : Type 0 where
  pub raw_seen : ℕ
  pub normalized_count : ℕ
  pub failed_count : ℕ
  pub records : List Report

abbrev pub instant : Value → ℕ
instant (time t) = t
instant _ = 0

-- `processing_status IN ('pending', 'collected')`
abbrev pub is_pending : Row → Bool
is_pending row =
    value_eq (row "processing_status") (str "pending")
    || value_eq (row "processing_status") (str "collected")

-- ORDER BY created_at DESC, fetched_at DESC
unfoldable pub fresher : Row → Row → Bool
fresher r s =
    if ltb (instant (s "created_at")) (instant (r "created_at"))
    then true
    else if ltb (instant (r "created_at")) (instant (s "created_at"))
    then false
    else if ltb (instant (r "fetched_at")) (instant (s "fetched_at"))
    then false
    else true

unfoldable pub pending_raw_query : ℕ → Table → List Row
pending_raw_query limit table = take limit (sort_by fresher (keep is_pending table))

abbrev pub Normalizer : Type 0
Normalizer = Row → NormalizedRecord ⊎ Error

abbrev pub processing_values : ℕ → List (String × Value)
processing_values now = ("processing_status", str "processing") ∷ ("updated_at", time now) ∷ []

abbrev pub normalized_values : ℕ → List (String × Value)
normalized_values now =
    ("processing_status", str "normalized")
    ∷ ("parsing_status", str "normalized")
    ∷ ("error_message", none_value)
    ∷ ("updated_at", time now)
    ∷ []

abbrev pub failed_values : String → ℕ → List (String × Value)
failed_values message now =
    ("processing_status", str "failed")
    ∷ ("parsing_status", str "failed")
    ∷ ("error_message", str message)
    ∷ ("updated_at", time now)
    ∷ []

-- `mark_failed`; the flag says that its own transaction fails, and is rolled back.
unfoldable pub mark_failed : Bool → ℕ → Row → Error → Store → Report × Store
mark_failed refused now row error store =
    let message = sanitize_error error in
    (
      failed_row (row "id") message,
      if refused then store else record {
        raw = update_where (column_is "id" (row "id")) (failed_values message now) store.raw;
        intelligence = store.intelligence;
        links = store.links;
      },
    )

-- What the database does to the transactions of a row: what the first one raises, and whether the
-- one that marks the row as failed is refused.
pub record Faults : Type 0 where
  pub in_transaction : Value → Option SessionFault
  pub in_mark : Value → Bool

abbrev pub append_to : List Report → Report × Store → List Report × Store
append_to reports (report, store) = (reports ++ (report ∷ []), store)

-- The reports and the tables after a row's transaction: what it gives if nothing is raised, and
-- else the row marked as failed in the tables as they were. The report of a normalised row is
-- appended before the commit, and stays where the commit raises.
abbrev pub committed :
    Option SessionFault → (Report × Store) ⊎ Error → Bool → ℕ → Row → Store → List Report × Store
committed none (inl (report, store')) refused now row store = (report ∷ [], store')
committed none (inr error) refused now row store =
    append_to [] (mark_failed refused now row error store)
committed (some (raised error)) _ refused now row store =
    append_to [] (mark_failed refused now row error store)
committed (some (at_commit error)) (inl (report, _)) refused now row store =
    append_to (report ∷ []) (mark_failed refused now row error store)
committed (some (at_commit error)) (inr own) refused now row store =
    append_to [] (mark_failed refused now row own store)

module _ (P : Python) (registry : Registry Normalizer) where
  -- The transaction of one row: the error it raises, or its report and the tables.
  abbrev pub normalizer_result : Row → NormalizedRecord ⊎ Error
  normalizer_result row =
      let raw_row = with_column row "processing_status" (str "processing") in
      elim (resolve P registry raw_row) [
        | inl normalizer ↦ normalizer raw_row
        | inr error ↦ inr error
      ]

  -- What is written once the normaliser has given a record.
  unfoldable pub store_normalized :
      Row → NormalizedRecord → Value → Value → ℕ → Store → Report × Store
  store_normalized row normalized new_id link_id now store =
      let upserted = upsert_normalized_record normalized new_id now store.intelligence in
      let this_row = column_is "id" (row "id") in
      (
        normalized_row (row "id") upserted.intelligence_id upserted.action normalized.dedup_key,
        record {
          raw =
              update_where this_row (normalized_values now)
                (update_where this_row (processing_values now) store.raw);
          intelligence = upserted.table;
          links =
              upsert_source_attribution upserted.intelligence_id normalized link_id now store.links;
        },
      )

  -- The transaction of a row, after what the normaliser gave.
  abbrev pub row_result :
      NormalizedRecord ⊎ Error → Row → Value → Value → ℕ → Store → (Report × Store) ⊎ Error
  row_result (inl normalized) row new_id link_id now store =
      inl (store_normalized row normalized new_id link_id now store)
  row_result (inr error) row new_id link_id now store = inr error

  unfoldable pub normalize_raw_row : Row → Value → Value → ℕ → Store → (Report × Store) ⊎ Error
  normalize_raw_row row = row_result (normalizer_result row) row

  -- One turn of the loop. A transaction that raises is rolled back.
  unfoldable pub normalize_in_session :
      Faults → Value → Value → ℕ → Row → Store → List Report × Store
  normalize_in_session faults new_id link_id now row store =
      committed (faults.in_transaction (row "id")) (normalize_raw_row row new_id link_id now store)
        (faults.in_mark (row "id")) now row store

  -- The loop over the rows; turn number `n` takes its identifiers from `uuid`.
  unfoldable pub normalize_rows :
      Faults → (ℕ → Value × Value) → ℕ → ℕ → List Row → Store → List Report × Store
  normalize_rows faults uuid n now [] store = ([], store)
  normalize_rows faults uuid n now (row ∷ rows) store =
      let (mine, store') = normalize_in_session faults (uuid n).0 (uuid n).1 now row store in
      let (reports, store'') = normalize_rows faults uuid (suc n) now rows store' in
      (mine ++ reports, store'')

  unfoldable pub normalize_pending : Faults → (ℕ → Value × Value) → ℕ → ℕ → Store → Summary × Store
  normalize_pending faults uuid now limit store =
      let rows = pending_raw_query limit store.raw in
      let (records, store') = normalize_rows faults uuid 0 now rows store in
      (
        record {
          raw_seen = length rows;
          normalized_count = tally is_normalized records;
          failed_count = tally is_failed records;
          records = records;
        },
        store',
      )
