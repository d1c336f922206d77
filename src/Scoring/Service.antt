-- ===== src/Scoring/Service.antt =====
-- The scoring service, worker/sentineldrive_worker/scoring/service.py: which rows are scored, what is
-- written, and what a run reports. What the database raises in a row's session is the argument
-- `fault`, by the row's id.
use sentinel_drive.Prelude.{
  ℕ, String, Bool, true, false, ◌&&◌, ◌||◌, Option, none, some, List, [], ◌∷◌, ◌++◌, length, tally,
  keep, take, if◌then◌else◌, ltb, ℤ, sort_by, string_Eq,
}
use sentinel_drive.Value.{
  Python, Value, none_value, str, time, float, dict, Fields, end, get, put, or_else, dict_or_empty,
}
use sentinel_drive.Value.Equality.{value_eq, int_eq}
use sentinel_drive.Value.Row.{Row}
use sentinel_drive.Database.{
  SessionFault, raised, at_commit, Table, column_is, select_first, update_where,
}
use sentinel_drive.Sanitize.{sanitize_error}
use sentinel_drive.Scoring.Rules.{score_threat_intelligence}
use sentinel_drive.Scoring.Factors.{ScoringResult, numeric_or_none}

-- The dict that is reported for a row.
pub data Outcome : Type 0 where
  scored : Value → ℤ → String → Outcome
  unchanged : Value → ℤ → String → Outcome
  missing : Value → Outcome
  failed : Value → String → Outcome

abbrev pub is_scored : Outcome → Bool
is_scored (scored _ _ _) = true
is_scored _ = false

abbrev pub is_unchanged : Outcome → Bool
is_unchanged (unchanged _ _ _) = true
is_unchanged _ = false

abbrev pub is_missing : Outcome → Bool
is_missing (missing _) = true
is_missing _ = false

abbrev pub is_failed : Outcome → Bool
is_failed (failed _ _) = true
is_failed _ = false

pub record Summary : Type 0 where
  pub rows_seen : ℕ
  pub scored_rows : ℕ
  pub unchanged_rows : ℕ
  pub failed_rows : ℕ
  pub records : List Outcome

-- The CASE expression of the query.
unfoldable pub priority : Row → ℕ
priority row =
    if value_eq (row "risk_score") none_value
    then 0
    else if value_eq (row "risk_level") (str "info")
    then 1
    else 2

abbrev pub instant : Value → ℕ
instant (time t) = t
instant _ = 0

-- ORDER BY priority, updated_at, created_at
unfoldable pub scored_before : Row → Row → Bool
unfolding priority
scored_before r s =
    if ltb (priority r) (priority s)
    then true
    else if ltb (priority s) (priority r)
    then false
    else if ltb (instant (r "updated_at")) (instant (s "updated_at"))
    then true
    else if ltb (instant (s "updated_at")) (instant (r "updated_at"))
    then false
    else if ltb (instant (s "created_at")) (instant (r "created_at"))
    then false
    else true

abbrev pub needs_score : Bool → Row → Bool
needs_score force row =
    value_eq (row "processing_status") (str "normalized")
    && (force || value_eq (row "risk_score") none_value || value_eq (row "risk_level") (str "info"))

unfoldable pub scoring_candidates : ℕ → Bool → Table → List Row
unfolding scored_before
scoring_candidates limit force table =
    take limit (sort_by scored_before (keep (needs_score force) table))

-- `dict(value) if isinstance(value, dict) else {}`, with the explanation under "scoring"
unfoldable pub metadata_with_scoring : Value → ScoringResult → Fields
metadata_with_scoring v result = put (dict_or_empty v) "scoring" (dict result.explanation)

-- `abs(float(value) - expected) < 0.005`: equality of hundredths.
unfoldable pub numeric_equal : Python → Value → ℤ → Bool
numeric_equal P v expected = elim (numeric_or_none P v) [
  | none ↦ false
  | some n ↦ int_eq n expected
]

unfoldable pub scoring_is_current : Python → Row → ScoringResult → Fields → Bool
scoring_is_current P row result metadata =
    let existing_metadata = dict_or_empty (or_else (row "metadata") (dict end)) in
    numeric_equal P (row "risk_score") result.risk_score
    && value_eq (row "risk_level") (str result.risk_level)
    && value_eq (get existing_metadata "scoring") (get metadata "scoring")

module _ (P : Python) where
  -- The columns that `score_row` writes.
  abbrev pub score_columns : Row → ℕ → List (String × Value)
  score_columns row now =
      let result = score_threat_intelligence P row in
      ("risk_score", float result.risk_score)
      ∷ ("risk_level", str result.risk_level)
      ∷ ("metadata", dict (metadata_with_scoring (row "metadata") result))
      ∷ ("updated_at", time now)
      ∷ []

  abbrev pub is_current : Row → Bool
  is_current row =
      let result = score_threat_intelligence P row in
      scoring_is_current P row result (metadata_with_scoring (row "metadata") result)

  unfoldable pub score_row : Row → ℕ → Table → Outcome × Table
  score_row row now table =
      let result = score_threat_intelligence P row in
      if is_current row
      then (unchanged (row "id") result.risk_score result.risk_level, table)
      else (
        scored (row "id") result.risk_score result.risk_level,
        update_where (column_is "id" (row "id")) (score_columns row now) table,
      )

  -- The session of a row, by what the database raises in it. The report is appended before the
  -- commit, and stays where the commit raises; for a row that has gone nothing is committed.
  abbrev pub session_result :
      Option SessionFault → ℕ → Value → Option Row → Table → List Outcome × Table
  session_result (some (raised error)) now id _ table =
      (failed id (sanitize_error error) ∷ [], table)
  session_result (some (at_commit error)) now id (some refreshed) table =
      let (outcome, _) = score_row refreshed now table in
      (outcome ∷ failed id (sanitize_error error) ∷ [], table)
  session_result none now id (some refreshed) table =
      let (outcome, table') = score_row refreshed now table in (outcome ∷ [], table')
  session_result _ now id none table = (missing id ∷ [], table)

  -- One turn of the loop: a session of its own, committed, or rolled back with the table as it was.
  unfoldable pub score_in_session :
      (Value → Option SessionFault) → ℕ → Row → Table → List Outcome × Table
  unfolding score_row
  score_in_session fault now row table =
      session_result (fault (row "id")) now (row "id")
        (select_first (column_is "id" (row "id")) table) table

  unfoldable pub score_rows :
      (Value → Option SessionFault) → ℕ → List Row → Table → List Outcome × Table
  unfolding score_in_session
  score_rows fault now [] table = ([], table)
  score_rows fault now (row ∷ rows) table =
      let (mine, table') = score_in_session fault now row table in
      let (outcomes, table'') = score_rows fault now rows table' in (mine ++ outcomes, table'')

  unfoldable pub score_pending :
      (Value → Option SessionFault) → ℕ → ℕ → Bool → Table → Summary × Table
  unfolding score_rows scoring_candidates
  score_pending fault now limit force table =
      let rows = scoring_candidates limit force table in
      let (records, table') = score_rows fault now rows table in
      (
        record {
          rows_seen = length rows;
          scored_rows = tally is_scored records;
          unchanged_rows = tally is_unchanged records;
          failed_rows = tally is_failed records;
          records = records;
        },
        table',
      )
