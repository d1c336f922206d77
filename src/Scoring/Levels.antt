-- ===== src/Scoring/Levels.antt =====
-- The score's range, the bands of the levels, and what a severe exploited record scores at least.
use sentinel_drive.Prelude.{
  String, ◌≡◌, true, ◌⊎◌, arith, string_Eq, eq_iff, ℤ, pos, ◌+ℤ◌, ◌≤ℤ◌, int_laws, ◌↔◌,
}
use sentinel_drive.Value.{Python}
use sentinel_drive.Value.Row.{Row}
use sentinel_drive.Scoring.Signals.{known_exploited}
use sentinel_drive.Scoring.Rules.{
  factors, exploit_factor, cvss_or_severity_factor, score_threat_intelligence, row_tags,
  row_metadata,
}
use sentinel_drive.Scoring.Factors.{total, bounded_score, risk_level_for_score, level_from}
use sentinel_drive.Scoring.Bounds.{Within, total-factors_bounds, cvss_bounds}

-- Every record scores between 0 and 100 points.
pub score_bounds :
    (P : Python) (row : Row)
    → (pos 0 ≤ℤ (score_threat_intelligence P row).risk_score)
      × ((score_threat_intelligence P row).risk_score ≤ℤ pos 10000)
unfolding score_threat_intelligence bounded_score
score_bounds P row = ground arith

-- What the name of a level says of a score, in hundredths.
abbrev pub InBand : String → ℤ → Type 0
InBand level n =
    ((level ≡ "critical") ↔ (pos 9000 ≤ℤ n))
    × ((level ≡ "high") ↔ ((pos 7000 ≤ℤ n) × (n ≤ℤ pos 8999)))
    × ((level ≡ "medium") ↔ ((pos 4000 ≤ℤ n) × (n ≤ℤ pos 6999)))
    × ((level ≡ "low") ↔ (n ≤ℤ pos 3999))

level_for-InBand : (n : ℤ) → InBand (risk_level_for_score n) n
unfolding risk_level_for_score level_from
level_for-InBand n = ground (
  arith,
  eq_iff "critical" "high",
  eq_iff "critical" "medium",
  eq_iff "critical" "low",
  eq_iff "high" "medium",
  eq_iff "high" "low",
  eq_iff "medium" "low",
)

-- The level of a record is that of the band in which its score lies.
pub score-InBand :
    (P : Python) (row : Row)
    → InBand
        (score_threat_intelligence P row).risk_level
        (score_threat_intelligence P row).risk_score
unfolding score_threat_intelligence
score-InBand P row = level_for-InBand (bounded_score (total (factors P row)))

exploit_factor_of_known :
    (P : Python) (row : Row)
    → known_exploited P row (row_tags P row) (row_metadata P row) ≡ true
    → Within (pos 2500) (pos 2500) (exploit_factor P row (row_tags P row) (row_metadata P row))
unfolding exploit_factor total
exploit_factor_of_known P row known = rw (known, exploit_factor) (omega int_laws)

bounded_score_ge : (n lo : ℤ) → lo ≤ℤ n → lo ≤ℤ pos 10000 → lo ≤ℤ bounded_score n
unfolding bounded_score
bounded_score_ge n lo h k = ground arith

level_ge_high :
    (n : ℤ)
    → pos 7000 ≤ℤ n
    → (risk_level_for_score n ≡ "high") ⊎ (risk_level_for_score n ≡ "critical")
unfolding risk_level_for_score level_from
level_ge_high n h = ground arith

-- A record that is known to be exploited, and whose CVSS score or severity gives 62 points or more,
-- scores at least 75 points: it is high or critical, whatever the other rules say.
pub exploited_severe :
    (P : Python) (row : Row)
    → known_exploited P row (row_tags P row) (row_metadata P row) ≡ true
    → pos 6200 ≤ℤ (cvss_or_severity_factor P row).contribution
    → (pos 7500 ≤ℤ (score_threat_intelligence P row).risk_score)
      × (((score_threat_intelligence P row).risk_level ≡ "high")
          ⊎ ((score_threat_intelligence P row).risk_level ≡ "critical"))
unfolding score_threat_intelligence ◌+ℤ◌
exploited_severe P row known severe =
    let sum =
      total-factors_bounds P row (pos 6200) (pos 7000) (pos 2500) (pos 2500)
        (severe, (cvss_bounds P row).1) (exploit_factor_of_known P row known) in
    let high = bounded_score_ge (total (factors P row)) (pos 7500) sum.0 (omega arith) in
    (high, level_ge_high (bounded_score (total (factors P row))) (omega arith))
