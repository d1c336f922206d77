-- ===== src/Tests/Scored.antt =====
-- The scoring rules and the service.
use sentinel_drive.Prelude.{◌≡◌, refl, pos, ◌≤ℤ◌, ◌⊎◌, [], ◌∷◌, arith}
use sentinel_drive.Value.{str, float, time, dict, put, dict_or_empty}
use sentinel_drive.Value.Row.{with_columns}
use sentinel_drive.Scoring.Rules.{score_threat_intelligence, scoring_runs}
use sentinel_drive.Scoring.Levels.{score_bounds, InBand, score-InBand, exploited_severe}
use sentinel_drive.Scoring.Rescore.{score_ignores_scoring}
use sentinel_drive.Scoring.Service.{score_columns, score_row, unchanged}
use sentinel_drive.Scoring.Runs.{rescore_unchanged}
use sentinel_drive.Tests.Samples.{plain, kev_row, plain_row}

kev_score :
    ((score_threat_intelligence plain kev_row).risk_score ≡ pos 10000)
    × ((score_threat_intelligence plain plain_row).risk_score ≡ pos 700)
    × ((score_threat_intelligence plain plain_row).risk_level ≡ "low")
unfolding scoring_runs
kev_score = (refl, refl, refl)

score_bounds_example :
    (pos 0 ≤ℤ (score_threat_intelligence plain kev_row).risk_score)
    × ((score_threat_intelligence plain kev_row).risk_score ≤ℤ pos 10000)
score_bounds_example = score_bounds plain kev_row

score-InBand_example :
    InBand
      (score_threat_intelligence plain plain_row).risk_level
      (score_threat_intelligence plain plain_row).risk_score
score-InBand_example = score-InBand plain plain_row

exploited_severe_example :
    (pos 7500 ≤ℤ (score_threat_intelligence plain kev_row).risk_score)
    × (((score_threat_intelligence plain kev_row).risk_level ≡ "high")
        ⊎ ((score_threat_intelligence plain kev_row).risk_level ≡ "critical"))
unfolding scoring_runs
exploited_severe_example = exploited_severe plain kev_row refl (omega arith)

score_ignores_scoring_example :
    score_threat_intelligence plain (
      with_columns kev_row (
        ("risk_score", float (pos 1))
        ∷ ("risk_level", str "low")
        ∷ ("metadata", dict (put (dict_or_empty (kev_row "metadata")) "scoring" (str "old")))
        ∷ ("updated_at", time 9)
        ∷ []))
    ≡ score_threat_intelligence plain kev_row
score_ignores_scoring_example =
    score_ignores_scoring plain kev_row (float (pos 1)) (str "low") (str "old") (time 9)

rescore_unchanged_example :
    score_row plain (with_columns kev_row (score_columns plain kev_row 7)) 8 (kev_row ∷ []) ≡ (
      unchanged
          (kev_row "id")
          (score_threat_intelligence plain kev_row).risk_score
          (score_threat_intelligence plain kev_row).risk_level,
      kev_row ∷ [],
    )
rescore_unchanged_example = rescore_unchanged plain kev_row 7 8 (kev_row ∷ [])
