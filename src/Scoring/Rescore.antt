-- ===== src/Scoring/Rescore.antt =====
-- Scoring does not read the result of an earlier scoring.
use sentinel_drive.Prelude.{String, ◌≡◌, refl, List, [], ◌∷◌, string_Eq}
use sentinel_drive.Value.{Python, Value, none_value, dict, Fields, end, dict_or_empty, put, without}
use sentinel_drive.Value.Dict.{without-put}
use sentinel_drive.Value.Row.{Row, with_columns}
use sentinel_drive.Scoring.Signals.{
  metadata_without_scoring, searchable_text, known_exploited, remote_exploitability_signal,
  authentication_signal, vehicle_component_signal, multi_vendor_or_common_component,
}
use sentinel_drive.Scoring.Rules.{
  factors, signals, exploit_factor, cvss_or_severity_factor, confidence_factor, source_fingerprint,
  score_threat_intelligence, row_metadata,
}
use sentinel_drive.Scoring.Factors.{ScoreFactor}

module _ (P : Python) (row : Row) (score level v stamp : Value) where
  -- The row after a scoring has written its four columns.
  abbrev written : Row
  written =
      with_columns row (
        ("risk_score", score)
        ∷ ("risk_level", level)
        ∷ ("metadata", v)
        ∷ ("updated_at", stamp)
        ∷ [])

  cvss-other : cvss_or_severity_factor P written ≡ cvss_or_severity_factor P row
  unfolding cvss_or_severity_factor
  cvss-other = refl

  confidence-other : confidence_factor P written ≡ confidence_factor P row
  unfolding confidence_factor
  confidence-other = refl

  known-other :
      (tags : List String) (m : Fields)
      → known_exploited P written tags m ≡ known_exploited P row tags m
  unfolding known_exploited
  known-other tags m = refl

  exploit-other :
      (tags : List String) (m : Fields)
      → exploit_factor P written tags m ≡ exploit_factor P row tags m
  unfolding exploit_factor known_exploited
  exploit-other tags m = refl

  text-other : (m : Fields) → searchable_text P written m ≡ searchable_text P row m
  unfolding searchable_text
  text-other m = refl

  remote-other :
      (s : String) → remote_exploitability_signal P written s ≡ remote_exploitability_signal P row s
  unfolding remote_exploitability_signal
  remote-other s = refl

  authentication-other :
      (s : String) → authentication_signal P written s ≡ authentication_signal P row s
  unfolding authentication_signal
  authentication-other s = refl

  vehicle-other : vehicle_component_signal P written ≡ vehicle_component_signal P row
  unfolding vehicle_component_signal
  vehicle-other = refl

  multi_vendor-other :
      (s : String)
      → multi_vendor_or_common_component P written s ≡ multi_vendor_or_common_component P row s
  unfolding multi_vendor_or_common_component
  multi_vendor-other s = refl

  fingerprint-other : (m : Fields) → source_fingerprint P written m ≡ source_fingerprint P row m
  unfolding source_fingerprint
  fingerprint-other m = refl

  factors-other : row_metadata P written ≡ row_metadata P row → factors P written ≡ factors P row
  unfolding factors
  factors-other h = simp (
    h, cvss-other, confidence-other, exploit-other, text-other, remote-other, authentication-other,
    vehicle-other, multi_vendor-other,
  )

  signals-other :
      (fs : List ScoreFactor)
      → row_metadata P written ≡ row_metadata P row
      → signals P written fs ≡ signals P row fs
  unfolding signals
  signals-other fs h = simp (
    h, known-other, text-other, remote-other, authentication-other, vehicle-other,
    multi_vendor-other,
  )

  score-other :
      row_metadata P written ≡ row_metadata P row
      → score_threat_intelligence P written ≡ score_threat_intelligence P row
  unfolding score_threat_intelligence
  score-other h = simp (factors-other h, signals-other (factors P row) h, h, fingerprint-other)

scoring_left_out :
    (v earlier : Value)
    → metadata_without_scoring (dict (put (dict_or_empty v) "scoring" earlier))
      ≡ metadata_without_scoring v
unfolding metadata_without_scoring without
scoring_left_out (dict fs) earlier = without-put "scoring" earlier fs
scoring_left_out none_value earlier = without-put "scoring" earlier end
scoring_left_out _ earlier = without-put "scoring" earlier end

-- Whatever an earlier scoring wrote in its four columns, the result is the same.
pub score_ignores_scoring :
    (P : Python) (row : Row) (score level earlier stamp : Value)
    → score_threat_intelligence P (
        with_columns row (
          ("risk_score", score)
          ∷ ("risk_level", level)
          ∷ ("metadata", dict (put (dict_or_empty (row "metadata")) "scoring" earlier))
          ∷ ("updated_at", stamp)
          ∷ []))
      ≡ score_threat_intelligence P row
score_ignores_scoring P row score level earlier stamp =
    score-other P row score level (dict (put (dict_or_empty (row "metadata")) "scoring" earlier))
      stamp (scoring_left_out (row "metadata") earlier)
