-- ===== src/Scoring/Runs.antt =====
-- What a run of the scoring service reports and writes.
use sentinel_drive.Prelude.{
  ℕ, suc, zero, ◌+◌, ◌≤◌, ◌≡◌, refl, Bool, true, Option, none, some, List, [], ◌∷◌, length,
  length-append, tally, keep, take, length-take, arith, All, sort_by, sort_by-All, ℤ, Bool-cases,
  inl, inr, if◌then◌else◌, string_Eq,
}
use sentinel_drive.Value.{Python, Value, str, dict, float, dict_or_empty}
use sentinel_drive.Value.Equality.{value_eq_refl, int_eq_refl}
use sentinel_drive.Value.Dict.{get-put, or_else-put}
use sentinel_drive.Value.Row.{Row, with_columns}
use sentinel_drive.Database.{SessionFault, raised, at_commit, Table, column_is, select_first}
use sentinel_drive.Scoring.Rules.{score_threat_intelligence}
use sentinel_drive.Scoring.Factors.{numeric_or_none}
use sentinel_drive.Scoring.Rescore.{score_ignores_scoring}
use sentinel_drive.Scoring.Explanation.{explanation-IsDict}
use sentinel_drive.Scoring.Service.{
  Outcome, scored, unchanged, missing, failed, is_scored, is_unchanged, is_missing, is_failed,
  needs_score, scored_before, scoring_candidates, metadata_with_scoring, numeric_equal,
  scoring_is_current, score_columns, is_current, score_row, session_result, score_in_session,
  score_rows, score_pending,
}

-- A report says scored, unchanged, missing or failed.
outcome_kinds :
    (o : Outcome)
    → (if is_scored o then 1 else 0)
        + (if is_unchanged o then 1 else 0)
        + (if is_missing o then 1 else 0)
        + (if is_failed o then 1 else 0)
      ≡ 1
outcome_kinds (scored _ _ _) = refl
outcome_kinds (unchanged _ _ _) = refl
outcome_kinds (missing _) = refl
outcome_kinds (failed _ _) = refl

session_result-reports :
    (P : Python) (fault : Option SessionFault) (now : ℕ) (id : Value) (found : Option Row)
    (table : Table)
    → 1 ≤ length (session_result P fault now id found table).0
session_result-reports P none now id none table = omega arith
session_result-reports P none now id (some row) table = omega arith
session_result-reports P (some (raised error)) now id found table = omega arith
session_result-reports P (some (at_commit error)) now id none table = omega arith
session_result-reports P (some (at_commit error)) now id (some row) table = omega arith

length-score_rows :
    (P : Python) (fault : Value → Option SessionFault) (now : ℕ) (rows : List Row) (table : Table)
    → length rows ≤ length (score_rows P fault now rows table).0
unfolding score_rows score_in_session
length-score_rows P fault now [] table = omega arith
length-score_rows P fault now (row ∷ rows) table =
    let found = select_first (column_is "id" (row "id")) table in
    let (mine, table') = score_in_session P fault now row table in
    omega (
      arith,
      length-append mine (score_rows P fault now rows table').0,
      session_result-reports P (fault (row "id")) now (row "id") found table,
      length-score_rows P fault now rows table',
    )

tally_kinds :
    (os : List Outcome)
    → tally is_scored os + tally is_unchanged os + tally is_missing os + tally is_failed os
      ≡ length os
tally_kinds [] = refl
tally_kinds (o ∷ os) = omega (arith, outcome_kinds o, tally_kinds os)

-- The counts that a run reports, with the rows that had gone meanwhile, are at least the rows seen,
-- and no more rows are seen than the limit allows.
pub score_pending_counts :
    (P : Python) (fault : Value → Option SessionFault) (now limit : ℕ) (force : Bool)
    (table : Table)
    → let summary = (score_pending P fault now limit force table).0 in
      (summary.rows_seen
        ≤ summary.scored_rows
          + summary.unchanged_rows
          + tally is_missing summary.records
          + summary.failed_rows)
      × (summary.rows_seen ≤ limit)
unfolding score_pending scoring_candidates
score_pending_counts P fault now limit force table =
    let rows = scoring_candidates limit force table in
    (
      omega (
        arith,
        tally_kinds (score_rows P fault now rows table).0,
        length-score_rows P fault now rows table,
      ),
      omega (arith, length-take limit (sort_by scored_before (keep (needs_score force) table))),
    )

keep-All : (p : Row → Bool) (rows : List Row) → All (λ r. p r ≡ true) (keep p rows)
keep-All p [] = tt
keep-All p (r ∷ rows) = elim (Bool-cases (p r)) [
  | inl e ↦ rw e (e, keep-All p rows)
  | inr e ↦ rw e (keep-All p rows)
]

take-All : (p : Row → Type 0) (n : ℕ) (rows : List Row) → All p rows → All p (take n rows)
take-All p zero rows h = tt
take-All p (suc n) [] h = tt
take-All p (suc n) (r ∷ rows) (e, h) = (e, take-All p n rows h)

-- Every candidate is normalised and, unless forced, has no score yet or the level "info".
pub scoring_candidates-All :
    (limit : ℕ) (force : Bool) (table : Table)
    → All (λ r. needs_score force r ≡ true) (scoring_candidates limit force table)
unfolding scoring_candidates
scoring_candidates-All limit force table =
    take-All (λ r. needs_score force r ≡ true) limit
      (sort_by scored_before (keep (needs_score force) table))
      (sort_by-All (λ r. needs_score force r ≡ true) scored_before (keep (needs_score force) table)
        (keep-All (needs_score force) table))

numeric_equal_refl : (P : Python) (n : ℤ) → numeric_equal P (float n) n ≡ true
unfolding numeric_equal numeric_or_none
numeric_equal_refl P n = int_eq_refl n

module _ (P : Python) (row : Row) (now : ℕ) where
  abbrev rescored : Row
  rescored = with_columns row (score_columns P row now)

  score-rescored : score_threat_intelligence P rescored ≡ score_threat_intelligence P row
  unfolding metadata_with_scoring
  score-rescored = score_ignores_scoring P row _ _ _ _

  -- A row as the service has just written it is current.
  rescored-is_current : is_current P rescored ≡ true
  unfolding scoring_is_current metadata_with_scoring
  rescored-is_current =
      let result = score_threat_intelligence P row in
      rw (
        score-rescored,
        or_else-put,
        get-put "scoring" (dict result.explanation) (dict_or_empty (row "metadata")),
        get-put "scoring" (dict result.explanation) _,
        numeric_equal_refl P result.risk_score,
        value_eq_refl (str result.risk_level) tt,
        value_eq_refl (dict result.explanation) (explanation-IsDict P row),
      )

-- Scoring a row a second time, at any later time, changes nothing and reports it as unchanged.
pub rescore_unchanged :
    (P : Python) (row : Row) (now later : ℕ) (table : Table)
    → let result = score_threat_intelligence P row in
      score_row P (with_columns row (score_columns P row now)) later table
      ≡ (unchanged (row "id") result.risk_score result.risk_level, table)
unfolding score_row
rescore_unchanged P row now later table =
    rw (rescored-is_current P row now, score-rescored P row now)
