-- ===== src/Scoring/Rules.antt =====
-- The fixed risk rules, worker/sentineldrive_worker/scoring/rules.py: the factors, their sum, the
-- level and the explanation. A score is its number of hundredths, so that `round(x, 2)` is exact.
use sentinel_drive.Prelude.{
  ℕ, ◌*◌, String, Bool, true, false, ◌||◌, Option, none, some, List, [], ◌∷◌, ◌++◌, map, any,
  contains, ◌==◌, string_Eq, nat_Eq, option_Eq, ltb, if◌then◌else◌, ℤ, pos, negsuc, ◌+ℤ◌,
}
use sentinel_drive.Text.{or_text, text_runs}
use sentinel_drive.Normalization.Dedup.{normalize_text}
use sentinel_drive.Value.{
  Python, Value, none_value, bool, float, str, list, dict, Fields, end, from_items, from_list,
  or_else, value_runs,
}
use sentinel_drive.Value.Row.{Row}
use sentinel_drive.Scoring.Signals.{
  rule_version, weight, severity_fallback, poc_terms, metadata_without_scoring, normalize_key,
  list_values, normalized_tags, has_any_term, searchable_text, known_exploited,
  remote_exploitability_signal, authentication_signal, vehicle_component_signal,
  multi_vendor_or_common_component, letter_then_end, strip_prefix, metric_at, metric_after_slash,
  search_metric, cvss_metric, present_texts, flatten_value, is_remote,
}
use sentinel_drive.Scoring.Factors.{
  ScoreFactor, ScoringResult, bounded_score, factor, insert_sorted, level_from, number_or_none,
  numeric_or_none, risk_level_for_score, round_tenth, sorted, texts_value, to_payload, total,
}

module _ (P : Python) where
  -- `max(cvss_score, 0.0)` and `min(…, 10.0)`, in hundredths of a point.
  abbrev pub bounded_cvss : ℤ → ℕ
  bounded_cvss (pos n) = if ltb 1000 n then 1000 else n
  bounded_cvss (negsuc n) = 0

  unfoldable pub severity_weight : String → ℤ
  severity_weight severity = elim (weight severity severity_fallback) [
    | none ↦ pos 1000
    | some w ↦ w
  ]

  unfoldable pub cvss_or_severity_factor : Row → ScoreFactor
  cvss_or_severity_factor row = elim (numeric_or_none P (row "cvss_score")) [
    | some cvss_score ↦
        let n = bounded_cvss cvss_score in
        factor "cvss" "CVSS 基础分" (pos (7 * n)) (float (pos (round_tenth n)))
    | none ↦
        let severity = or_text (normalize_key P (row "severity")) "unknown" in
        factor "severity" "严重度回退评分" (severity_weight severity) (str severity)
  ]

  unfoldable pub confidence_weight : String → ℤ
  confidence_weight confidence =
      elim (weight confidence (("high", pos 500) ∷ ("medium", pos 0) ∷ ("low", negsuc 799) ∷ [])) [
        | none ↦ pos 0
        | some w ↦ w
      ]

  unfoldable pub confidence_factor : Row → ScoreFactor
  confidence_factor row =
      let confidence = or_text (normalize_key P (row "confidence")) "medium" in
      factor "source_confidence" "数据源可信度" (confidence_weight confidence) (str confidence)

  unfoldable pub source_fingerprint : Row → Fields → String
  source_fingerprint row metadata = P.sha256 (
      P.dumps (
        dict (
          from_items (
            ("rule_version", str rule_version)
            ∷ ("title", row "title")
            ∷ ("summary", row "summary")
            ∷ ("intelligence_type", row "intelligence_type")
            ∷ ("source_names", texts_value (sorted (list_values P (row "source_names"))))
            ∷ ("external_ids", or_else (row "external_ids") (dict end))
            ∷ ("cve_id", row "cve_id")
            ∷ ("cwe_id", row "cwe_id")
            ∷ ("cvss_score", number_or_none (numeric_or_none P (row "cvss_score")))
            ∷ ("cvss_vector", row "cvss_vector")
            ∷ ("severity", row "severity")
            ∷ ("affected_vendor", row "affected_vendor")
            ∷ ("affected_product", row "affected_product")
            ∷ ("affected_version", row "affected_version")
            ∷ ("vehicle_component", row "vehicle_component")
            ∷ ("attack_surface", row "attack_surface")
            ∷ ("exploit_status", row "exploit_status")
            ∷ ("confidence", row "confidence")
            ∷ ("tags", texts_value (sorted (list_values P (row "tags"))))
            ∷ ("metadata", dict metadata)
            ∷ []))))

  -- The factors that a signal adds, or none.
  unfoldable pub signal_factor : String → String → Option (String × ℤ) → List ScoreFactor
  signal_factor key label none = []
  signal_factor key label (some (evidence, w)) = factor key label w (str evidence) ∷ []

  unfoldable pub flag_factor : String → String → ℤ → Bool → List ScoreFactor
  flag_factor key label w true = factor key label w (bool true) ∷ []
  flag_factor key label w false = []

  unfoldable pub exploit_factor : Row → List String → Fields → List ScoreFactor
  exploit_factor row tags metadata =
      if known_exploited P row tags metadata
      then factor "known_exploited" "已知在野利用或 CISA KEV 信号" (pos 2500) (bool true) ∷ []
      else if normalize_key P (row "exploit_status") == "proof_of_concept"
      then factor "exploit_status" "概念验证（PoC）利用状态" (pos 1200) (str "proof_of_concept") ∷ []
      else []

  abbrev pub public_poc : String → List String → Bool
  public_poc signal_text tags =
      has_any_term P signal_text poc_terms
      || contains tags "poc"
      || contains tags "proof_of_concept"

  -- The three local variables that the rules read beside the row.
  abbrev pub row_metadata : Row → Fields
  row_metadata row = metadata_without_scoring (row "metadata")

  abbrev pub row_tags : Row → List String
  row_tags row = normalized_tags P (row "tags")

  abbrev pub row_text : Row → String
  row_text row = searchable_text P row (row_metadata row)

  -- The list `factors`, in the order in which the code appends.
  unfoldable pub factors : Row → List ScoreFactor
  factors row =
      let metadata = row_metadata row in
      let tags = row_tags row in
      let signal_text = row_text row in
      cvss_or_severity_factor row
      ∷ (exploit_factor row tags metadata
          ++ (flag_factor "public_poc" "公开 PoC 或利用代码信号" (pos 1000) (public_poc signal_text tags)
              ++ (signal_factor "remote_exploitability" "可远程利用信号"
                    (remote_exploitability_signal P row signal_text)
                  ++ (signal_factor "authentication_requirement" "身份认证要求信号"
                        (authentication_signal P row signal_text)
                      ++ (signal_factor "vehicle_critical_component" "车控关键组件影响"
                            (vehicle_component_signal P row)
                          ++ (flag_factor "multi_vendor_common_component" "多厂商或通用组件影响" (pos 800)
                                (multi_vendor_or_common_component P row signal_text)
                              ++ (confidence_factor row ∷ [])))))))

  abbrev pub signal_name : Option (String × ℤ) → Value → Value
  signal_name none v = v
  signal_name (some (name, w)) v = str name

  abbrev is_some_signal : Option (String × ℤ) → Bool
  is_some_signal none = false
  is_some_signal (some _) = true

  unfoldable pub signals : Row → List ScoreFactor → Fields
  signals row fs =
      let metadata = row_metadata row in
      let tags = row_tags row in
      let signal_text = row_text row in
      from_items (
        ("known_exploited", bool (known_exploited P row tags metadata))
        ∷ ("public_poc", bool (any (λ f. f.key == "public_poc") fs))
        ∷ (
          "remote_exploitability",
          bool (is_some_signal (remote_exploitability_signal P row signal_text)),
        )
        ∷ ("authentication", signal_name (authentication_signal P row signal_text) (str "unknown"))
        ∷ ("vehicle_component", signal_name (vehicle_component_signal P row) none_value)
        ∷ (
          "multi_vendor_or_common_component",
          bool (multi_vendor_or_common_component P row signal_text),
        )
        ∷ ("source_confidence", str (or_text (normalize_key P (row "confidence")) "medium"))
        ∷ [])

  unfoldable pub score_threat_intelligence : Row → ScoringResult
  score_threat_intelligence row =
      let fs = factors row in
      let score = bounded_score (total fs) in
      let level = risk_level_for_score score in
      record {
        risk_score = score;
        risk_level = level;
        explanation = from_items (
            ("rule_version", str rule_version)
            ∷ (
              "source_fingerprint",
              str (source_fingerprint row (metadata_without_scoring (row "metadata"))),
            )
            ∷ ("score", float score)
            ∷ ("level", str level)
            ∷ ("factors", list (from_list (map to_payload fs)))
            ∷ ("signals", dict (signals row fs))
            ∷ []);
      }

-- Named on the `unfolding` line of a test that runs the rules.
unfoldable pub scoring_runs : Unit {0}
unfolding text_runs value_runs normalize_text option_Eq ◌+ℤ◌ score_threat_intelligence factors total
    bounded_score risk_level_for_score level_from source_fingerprint signals to_payload
    exploit_factor signal_factor flag_factor cvss_or_severity_factor severity_weight
    confidence_factor confidence_weight round_tenth numeric_or_none sorted insert_sorted weight
    letter_then_end strip_prefix metric_at metric_after_slash search_metric cvss_metric
    metadata_without_scoring normalize_key present_texts list_values flatten_value normalized_tags
    has_any_term searchable_text known_exploited is_remote remote_exploitability_signal
    authentication_signal vehicle_component_signal multi_vendor_or_common_component
scoring_runs = tt
