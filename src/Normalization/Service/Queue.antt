-- ===== src/Normalization/Service/Queue.antt =====
-- What a run of the normalisation service leaves in its three tables.
use sentinel_drive.Prelude.{
  ℕ, suc, ◌+◌, ◌≤◌, String, ◌≡◌, refl, Bool, true, false, ◌||◌, not, Option, none, some, List, [],
  ◌∷◌, ◌⊎◌, inl, inr, length, length-append, tally, length-take, All, Bool-cases, arith, sort_by,
  keep,
}
use sentinel_drive.Value.{Python, Value}
use sentinel_drive.Value.Equality.{value_eq}
use sentinel_drive.Value.Row.{Row, with_columns}
use sentinel_drive.Database.{SessionFault, raised, at_commit, Table, column_is, update_where}
use sentinel_drive.Sanitize.{Error, sanitize_error}
use sentinel_drive.Normalization.Record.{NormalizedRecord}
use sentinel_drive.Normalization.Registry.{Registry}
use sentinel_drive.Normalization.Service.{
  Store, Report, normalized_row, failed_row, Faults, Normalizer, is_pending, is_normalized,
  is_failed, fresher, pending_raw_query, processing_values, normalized_values, failed_values,
  mark_failed, committed, row_result, store_normalized, normalizer_result, normalize_raw_row,
  normalize_in_session, normalize_rows, normalize_pending,
}
use sentinel_drive.Normalization.Service.Upsert.{UniqueKeys, upsert-UniqueKeys}

-- No row with the identifier waits.
abbrev pub Settled : Value → Table → Type 0
Settled v = All (λ r. (not (value_eq (r "id") v) || not (is_pending r)) ≡ true)

-- Columns after whose update a row does not wait.
abbrev Settling : List (String × Value) → Type 0
Settling columns = (r : Row) → is_pending (with_columns r columns) ≡ false

not_or : (a : Bool) → (a || not false) ≡ true
not_or true = refl
not_or false = refl

Settled-update :
    (v : Value) (p : Row → Bool) (columns : List (String × Value)) (table : Table)
    → Settling columns
    → Settled v table
    → Settled v (update_where p columns table)
unfolding update_where
Settled-update v p columns [] s h = tt
Settled-update v p columns (r ∷ table) s (e, h) = elim (Bool-cases (p r)) [
  | inl b ↦ rw (b, s r) (not_or _, Settled-update v p columns table s h)
  | inr b ↦ rw b (e, Settled-update v p columns table s h)
]

update-Settles :
    (v : Value) (columns : List (String × Value)) (table : Table)
    → Settling columns
    → Settled v (update_where (column_is "id" v) columns table)
unfolding update_where
update-Settles v columns [] s = tt
update-Settles v columns (r ∷ table) s = elim (Bool-cases (value_eq (r "id") v)) [
  | inl b ↦ rw (b, s r) (not_or _, update-Settles v columns table s)
  | inr b ↦ rw (b, b) (refl, update-Settles v columns table s)
]

processing-Settling : (now : ℕ) → Settling (processing_values now)
unfolding value_eq
processing-Settling now r = refl

normalized-Settling : (now : ℕ) → Settling (normalized_values now)
unfolding value_eq
normalized-Settling now r = refl

failed-Settling : (message : String) (now : ℕ) → Settling (failed_values message now)
unfolding value_eq
failed-Settling message now r = refl

mark_failed-Settled :
    (v : Value) (refused : Bool) (now : ℕ) (row : Row) (error : Error) (store : Store)
    → Settled v store.raw
    → Settled v (mark_failed refused now row error store).1.raw
unfolding mark_failed
mark_failed-Settled v true now row error store h = h
mark_failed-Settled v false now row error store h =
    Settled-update v (column_is "id" (row "id")) (failed_values (sanitize_error error) now)
      store.raw (failed-Settling (sanitize_error error) now) h

mark_failed-Settles :
    (refused : Bool) (now : ℕ) (row : Row) (error : Error) (store : Store)
    → refused ≡ false
    → Settled (row "id") (mark_failed refused now row error store).1.raw
unfolding mark_failed
mark_failed-Settles true now row error store e = cc
mark_failed-Settles false now row error store e =
    update-Settles (row "id") (failed_values (sanitize_error error) now) store.raw
      (failed-Settling (sanitize_error error) now)

module _ (P : Python) (registry : Registry Normalizer) where
  stored-Settled :
      (v : Value) (row : Row) (normalized : NormalizedRecord) (new_id link_id : Value) (now : ℕ)
      (store : Store)
      → Settled v store.raw
      → Settled v (store_normalized P registry row normalized new_id link_id now store).1.raw
  unfolding store_normalized
  stored-Settled v row normalized new_id link_id now store h =
      let this_row = column_is "id" (row "id") in
      Settled-update v this_row (normalized_values now)
        (update_where this_row (processing_values now) store.raw) (normalized-Settling now)
        (Settled-update v this_row (processing_values now) store.raw (processing-Settling now) h)

  stored-Settles :
      (row : Row) (normalized : NormalizedRecord) (new_id link_id : Value) (now : ℕ) (store : Store)
      → Settled
          (row "id")
          (store_normalized P registry row normalized new_id link_id now store).1.raw
  unfolding store_normalized
  stored-Settles row normalized new_id link_id now store =
      update-Settles (row "id") (normalized_values now)
        (update_where (column_is "id" (row "id")) (processing_values now) store.raw)
        (normalized-Settling now)

  committed-Settled :
      (v : Value) (o : Option SessionFault) (r : NormalizedRecord ⊎ Error) (refused : Bool)
      (row : Row) (new_id link_id : Value) (now : ℕ) (store : Store)
      → Settled v store.raw
      → Settled v
          (committed o
            (row_result P registry r row new_id link_id now store)
            refused
            now
            row
            store).1.raw
  committed-Settled v none (inl n) refused row new_id link_id now store h =
      stored-Settled v row n new_id link_id now store h
  committed-Settled v none (inr error) refused row new_id link_id now store h =
      mark_failed-Settled v refused now row error store h
  committed-Settled v (some (raised error)) r refused row new_id link_id now store h =
      mark_failed-Settled v refused now row error store h
  committed-Settled v (some (at_commit error)) (inl n) refused row new_id link_id now store h =
      mark_failed-Settled v refused now row error store h
  committed-Settled v (some (at_commit error)) (inr own) refused row new_id link_id now store h =
      mark_failed-Settled v refused now row own store h

  committed-Settles :
      (o : Option SessionFault) (r : NormalizedRecord ⊎ Error) (refused : Bool) (row : Row)
      (new_id link_id : Value) (now : ℕ) (store : Store)
      → refused ≡ false
      → Settled
          (row "id")
          (committed o
            (row_result P registry r row new_id link_id now store)
            refused
            now
            row
            store).1.raw
  committed-Settles none (inl n) refused row new_id link_id now store h =
      stored-Settles row n new_id link_id now store
  committed-Settles none (inr error) refused row new_id link_id now store h =
      mark_failed-Settles refused now row error store h
  committed-Settles (some (raised error)) r refused row new_id link_id now store h =
      mark_failed-Settles refused now row error store h
  committed-Settles (some (at_commit error)) (inl n) refused row new_id link_id now store h =
      mark_failed-Settles refused now row error store h
  committed-Settles (some (at_commit error)) (inr own) refused row new_id link_id now store h =
      mark_failed-Settles refused now row own store h

  rows-Settled :
      (v : Value) (faults : Faults) (uuid : ℕ → Value × Value) (n now : ℕ) (rows : List Row)
      (store : Store)
      → Settled v store.raw
      → Settled v (normalize_rows P registry faults uuid n now rows store).1.raw
  unfolding normalize_rows normalize_in_session normalize_raw_row
  rows-Settled v faults uuid n now [] store h = h
  rows-Settled v faults uuid n now (row ∷ rows) store h =
      rows-Settled v faults uuid (suc n) now rows _ (
        committed-Settled v (faults.in_transaction (row "id")) (normalizer_result P registry row)
          (faults.in_mark (row "id")) row (uuid n).0 (uuid n).1 now store h)

  rows-Settles :
      (faults : Faults) (uuid : ℕ → Value × Value) (n now : ℕ) (rows : List Row) (store : Store)
      → ((v : Value) → faults.in_mark v ≡ false)
      → All
          (λ row. Settled (row "id") (normalize_rows P registry faults uuid n now rows store).1.raw)
          rows
  unfolding normalize_rows normalize_in_session normalize_raw_row
  rows-Settles faults uuid n now [] store h = tt
  rows-Settles faults uuid n now (row ∷ rows) store h = (
    rows-Settled (row "id") faults uuid (suc n) now rows _ (
        committed-Settles (faults.in_transaction (row "id")) (normalizer_result P registry row)
          (faults.in_mark (row "id")) row (uuid n).0 (uuid n).1 now store (h (row "id"))),
    rows-Settles faults uuid (suc n) now rows _ h,
  )

  committed-UniqueKeys :
      (o : Option SessionFault) (r : NormalizedRecord ⊎ Error) (refused : Bool) (row : Row)
      (new_id link_id : Value) (now : ℕ) (store : Store)
      → UniqueKeys store.intelligence
      → UniqueKeys
          (committed o
            (row_result P registry r row new_id link_id now store)
            refused
            now
            row
            store).1.intelligence
  unfolding store_normalized mark_failed
  committed-UniqueKeys none (inl n) refused row new_id link_id now store h =
      upsert-UniqueKeys n new_id now store.intelligence h
  committed-UniqueKeys none (inr error) true row new_id link_id now store h = h
  committed-UniqueKeys none (inr error) false row new_id link_id now store h = h
  committed-UniqueKeys (some (raised error)) r true row new_id link_id now store h = h
  committed-UniqueKeys (some (raised error)) r false row new_id link_id now store h = h
  committed-UniqueKeys (some (at_commit error)) (inl n) true row new_id link_id now store h = h
  committed-UniqueKeys (some (at_commit error)) (inl n) false row new_id link_id now store h = h
  committed-UniqueKeys (some (at_commit error)) (inr own) true row new_id link_id now store h = h
  committed-UniqueKeys (some (at_commit error)) (inr own) false row new_id link_id now store h = h

  rows-UniqueKeys :
      (faults : Faults) (uuid : ℕ → Value × Value) (n now : ℕ) (rows : List Row) (store : Store)
      → UniqueKeys store.intelligence
      → UniqueKeys (normalize_rows P registry faults uuid n now rows store).1.intelligence
  unfolding normalize_rows normalize_in_session normalize_raw_row
  rows-UniqueKeys faults uuid n now [] store h = h
  rows-UniqueKeys faults uuid n now (row ∷ rows) store h =
      rows-UniqueKeys faults uuid (suc n) now rows _ (
        committed-UniqueKeys (faults.in_transaction (row "id")) (normalizer_result P registry row)
          (faults.in_mark (row "id")) row (uuid n).0 (uuid n).1 now store h)

  committed-reports :
      (o : Option SessionFault) (r : (Report × Store) ⊎ Error) (refused : Bool) (now : ℕ)
      (row : Row) (store : Store)
      → 1 ≤ length (committed o r refused now row store).0
  committed-reports none (inl p) refused now row store = omega arith
  committed-reports none (inr error) refused now row store = omega arith
  committed-reports (some (raised error)) r refused now row store = omega arith
  committed-reports (some (at_commit error)) (inl p) refused now row store = omega arith
  committed-reports (some (at_commit error)) (inr own) refused now row store = omega arith

  length-normalize_rows :
      (faults : Faults) (uuid : ℕ → Value × Value) (n now : ℕ) (rows : List Row) (store : Store)
      → length rows ≤ length (normalize_rows P registry faults uuid n now rows store).0
  unfolding normalize_rows normalize_in_session
  length-normalize_rows faults uuid n now [] store = omega arith
  length-normalize_rows faults uuid n now (row ∷ rows) store =
      let (mine, store') =
        normalize_in_session P registry faults (uuid n).0 (uuid n).1 now row store in
      omega (
        arith,
        length-append mine (normalize_rows P registry faults uuid (suc n) now rows store').0,
        committed-reports (faults.in_transaction (row "id"))
            (normalize_raw_row P registry row (uuid n).0 (uuid n).1 now store)
            (faults.in_mark (row "id")) now row store,
        length-normalize_rows faults uuid (suc n) now rows store',
      )

tally_kinds :
    (reports : List Report) → tally is_normalized reports + tally is_failed reports ≡ length reports
tally_kinds [] = refl
tally_kinds (normalized_row _ _ _ _ ∷ reports) = omega (arith, tally_kinds reports)
tally_kinds (failed_row _ _ ∷ reports) = omega (arith, tally_kinds reports)

-- After a run, no row that it took up waits any more, whether its normaliser gave a record or
-- raised, and whether the database failed or not, as long as the rows could be marked.
pub normalize_pending-Settles :
    (P : Python) (registry : Registry Normalizer) (faults : Faults) (uuid : ℕ → Value × Value)
    (now limit : ℕ) (store : Store)
    → ((v : Value) → faults.in_mark v ≡ false)
    → All
        (λ row. Settled (row "id") (normalize_pending P registry faults uuid now limit store).1.raw)
        (pending_raw_query limit store.raw)
unfolding normalize_pending
normalize_pending-Settles P registry faults uuid now limit store h =
    rows-Settles P registry faults uuid 0 now (pending_raw_query limit store.raw) store h

-- A run keeps the keys of the stored intelligence apart, whatever the normalisers give.
pub normalize_pending-UniqueKeys :
    (P : Python) (registry : Registry Normalizer) (faults : Faults) (uuid : ℕ → Value × Value)
    (now limit : ℕ) (store : Store)
    → UniqueKeys store.intelligence
    → UniqueKeys (normalize_pending P registry faults uuid now limit store).1.intelligence
unfolding normalize_pending
normalize_pending-UniqueKeys P registry faults uuid now limit store h =
    rows-UniqueKeys P registry faults uuid 0 now (pending_raw_query limit store.raw) store h

-- Every row seen is reported at least once, as normalised or as failed, and no more are seen than the
-- limit allows.
pub normalize_pending_counts :
    (P : Python) (registry : Registry Normalizer) (faults : Faults) (uuid : ℕ → Value × Value)
    (now limit : ℕ) (store : Store)
    → let summary = (normalize_pending P registry faults uuid now limit store).0 in
      (summary.raw_seen ≤ summary.normalized_count + summary.failed_count)
      × (summary.raw_seen ≤ limit)
unfolding normalize_pending pending_raw_query
normalize_pending_counts P registry faults uuid now limit store =
    let rows = pending_raw_query limit store.raw in
    (
      omega (
        arith,
        tally_kinds (normalize_rows P registry faults uuid 0 now rows store).0,
        length-normalize_rows P registry faults uuid 0 now rows store,
      ),
      omega (arith, length-take limit (sort_by fresher (keep is_pending store.raw))),
    )
