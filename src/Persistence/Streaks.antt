-- ===== src/Persistence/Streaks.antt =====
-- The number of failures in a row that the synchronisation state counts.
use sentinel_drive.Prelude.{
  ℕ, ◌+◌, String, ◌≡◌, refl, ap, sym, ◌∙◌, false, Option, none, some, List, [], ◌∷◌, ◌++◌,
  if◌then◌else◌, string_Eq, ◌⊎◌, inl, inr, Bool-cases, arith, All, tally,
}
use mathlib.Core.Path.{subst}
use sentinel_drive.Value.{Value}
use sentinel_drive.Value.Equality.{value_eq}
use sentinel_drive.Value.Row.{Row, with_columns, Lacks, with_columns-Lacks}
use sentinel_drive.Database.{Table, column_is, select_first, update_where}
use sentinel_drive.Sanitize.{Error}
use sentinel_drive.Collection.Runtime.{SourceRunRecord, RunStatus, success, failed, skipped}
use sentinel_drive.Collection.Enabled.{is_success, is_failed, status_success, status_failed}
use sentinel_drive.Persistence.Runs.{
  update_sync_state, updated_state, sync_columns, next_failures, count_of,
}

abbrev or_same : Table ⊎ Error → Table → Table
or_same (inl t) old = t
or_same (inr e) old = old

-- The table after the runs of a source; an update that raised would leave it as it was.
unfoldable pub sync_after : Value → ℕ → List SourceRunRecord → Table → Table
sync_after source_id now [] table = table
sync_after source_id now (r ∷ rs) table =
    sync_after source_id now rs (or_same (update_sync_state source_id r now table) table)

abbrev failures_of : Option Row → ℕ
failures_of none = 0
failures_of (some row) = count_of (row "consecutive_failures")

-- The count that the source's state holds.
abbrev pub failures_in : Value → Table → ℕ
failures_in source_id table = failures_of (select_first (column_is "source_id" source_id) table)

abbrev updated_row : Option Row → List (String × Value) → Option Row
updated_row none columns = none
updated_row (some row) columns = some (with_columns row columns)

select_self :
    (v : Value) (columns : List (String × Value)) (table : Table)
    → Lacks "source_id" columns
    → select_first (column_is "source_id" v) (update_where (column_is "source_id" v) columns table)
      ≡ updated_row (select_first (column_is "source_id" v) table) columns
unfolding select_first update_where
select_self v columns [] h = refl
select_self v columns (r ∷ table) h = elim (Bool-cases (value_eq (r "source_id") v)) [
  | inl e ↦ rw (e, with_columns-Lacks "source_id" r columns h, e) refl
  | inr e ↦ rw (e, e) (select_self v columns table h)
]

-- The state exists, and its count is a number.
abbrev pub HasState : Value → Table → Type 0
HasState v table = (row : Row) × (select_first (column_is "source_id" v) table ≡ some row)

step :
    (v : Value) (r : SourceRunRecord) (now : ℕ) (table : Table) (row : Row)
    → select_first (column_is "source_id" v) table ≡ some row
    → select_first (column_is "source_id" v) (or_same (update_sync_state v r now table) table)
      ≡ some (with_columns row (sync_columns r row now))
unfolding update_sync_state sync_columns
step v r now table row e =
    let columns = sync_columns r row now in
    subst
      (λ o.
        select_first (column_is "source_id" v) (or_same (updated_state o v r now table) table)
        ≡ some (with_columns row columns))
      (sym e)
      (select_self v columns table (refl, (refl, (refl, (refl, (refl, (refl, (refl, tt)))))))
        ∙ ap (λ o. updated_row o columns) e)

step-failures :
    (v : Value) (r : SourceRunRecord) (now : ℕ) (table : Table) (row : Row)
    → select_first (column_is "source_id" v) table ≡ some row
    → failures_in v (or_same (update_sync_state v r now table) table)
      ≡ next_failures r.status (failures_in v table)
unfolding sync_columns
step-failures v r now table row e =
    ap failures_of (step v r now table row e)
    ∙ sym (ap (λ o. next_failures r.status (failures_of o)) e)

HasState-step :
    (v : Value) (r : SourceRunRecord) (now : ℕ) (table : Table)
    → HasState v table
    → HasState v (or_same (update_sync_state v r now table) table)
HasState-step v r now table (row, e) =
    (with_columns row (sync_columns r row now), step v r now table row e)

sync_after-append :
    (v : Value) (now : ℕ) (rs later : List SourceRunRecord) (table : Table)
    → sync_after v now (rs ++ later) table ≡ sync_after v now later (sync_after v now rs table)
unfolding sync_after
sync_after-append v now [] later table = refl
sync_after-append v now (r ∷ rs) later table =
    sync_after-append v now rs later (or_same (update_sync_state v r now table) table)

sync_after-HasState :
    (v : Value) (now : ℕ) (rs : List SourceRunRecord) (table : Table)
    → HasState v table
    → HasState v (sync_after v now rs table)
unfolding sync_after
sync_after-HasState v now [] table h = h
sync_after-HasState v now (r ∷ rs) table h =
    sync_after-HasState v now rs _ (HasState-step v r now table h)

next-counted :
    (s : RunStatus) (n : ℕ)
    → status_success s ≡ false
    → next_failures s n ≡ n + (if status_failed s then 1 else 0)
unfolding next_failures
next-counted success n e = cc
next-counted failed n e = omega arith
next-counted skipped n e = omega arith

without-success :
    (v : Value) (now : ℕ) (rs : List SourceRunRecord) (table : Table)
    → HasState v table
    → All (λ r. is_success r ≡ false) rs
    → failures_in v (sync_after v now rs table) ≡ failures_in v table + tally is_failed rs
unfolding sync_after
without-success v now [] table h k = omega arith
without-success v now (r ∷ rs) table (row, e) (k, ks) =
    let next = or_same (update_sync_state v r now table) table in
    omega (
      arith,
      without-success v now rs next (HasState-step v r now table (row, e)) ks,
      step-failures v r now table row e,
      next-counted r.status (failures_in v table) k,
    )

-- The state of a source counts the failures since the last success: whatever ran before, after a
-- successful run and others none of which is successful, the count is the number of failed ones among
-- these, where a skipped run counts as nothing.
pub sync_streak :
    (v : Value) (now : ℕ) (before later : List SourceRunRecord) (r : SourceRunRecord)
    (table : Table)
    → HasState v table
    → r.status ≡ success
    → All (λ r. is_success r ≡ false) later
    → failures_in v (sync_after v now (before ++ r ∷ later) table) ≡ tally is_failed later
unfolding sync_after next_failures
sync_streak v now before later r table h e k =
    let reached = sync_after v now before table in
    let (row, found) = sync_after-HasState v now before table h in
    let next = or_same (update_sync_state v r now reached) reached in
    ap (failures_in v) (sync_after-append v now before (r ∷ later) table)
    ∙ (without-success v now later next (HasState-step v r now reached (row, found)) k
        ∙ rw (step-failures v r now reached row found, e) (omega arith))
