-- ===== src/Tests/Alerted.antt =====
-- Alerts.
use sentinel_drive.Prelude.{
  ◌≡◌, ◌||◌, ℕ, String, none, some, List, [], ◌∷◌, All, contains, string_Eq,
}
use sentinel_drive.Value.{end}
use sentinel_drive.Alerts.Entry.{Entry, normalize_column}
use sentinel_drive.Alerts.Rules.{alert_candidates, burst_context}
use sentinel_drive.Alerts.Service.{evaluate_and_create_alerts}
use sentinel_drive.Alerts.Again.{evaluate_again, OneEach, evaluate-OneEach}
use sentinel_drive.Alerts.Levels.{AtLeast, candidates-AtLeast}
use sentinel_drive.Alerts.Triggers.{known_exploited-tag}
use sentinel_drive.Prelude.{length, sort_by, refl}
use sentinel_drive.Text.{text_runs}
use sentinel_drive.Value.{value_runs}
use sentinel_drive.Scoring.Factors.{sorted, insert_sorted}
use sentinel_drive.Alerts.Service.{
  evaluate_entries, create_alerts_for_intelligence, create_alerts, existing_alert,
  candidate_entries, context_of, seen_later,
}
use sentinel_drive.Alerts.Rules.{
  is_critical, known_exploited, is_high_risk_vehicle_critical, burst_in, burst_matches,
}
use sentinel_drive.Alerts.Entry.{
  cve_source_count, source_count, same_cve, all_names, all_urls, to_set, component_key,
  scoring_metadata, max_risk, risk_level_of,
}

abbrev entry_of : String → String → Entry
entry_of entry_id level = record {
  entry_id = entry_id;
  cve_id = some "CVE-2026-1000";
  risk_score = none;
  risk_level = some level;
  severity = some level;
  vehicle_component = some "tbox";
  attack_surface = none;
  exploit_status = some "exploited";
  affected_vendor = some "Vendor";
  tags = "cisa-kev" ∷ [];
  source_names = "NVD" ∷ "CISA-KEV" ∷ [];
  source_urls = "https://nvd.example/1" ∷ [];
  link_urls = [];
  first_seen_at = 10;
  last_seen_at = 20;
  metadata = end;
}

abbrev entries : List Entry
entries = entry_of "a" "critical" ∷ entry_of "b" "high" ∷ entry_of "c" "high" ∷ []

abbrev uuids : ℕ → String
uuids n = "alert"

alerts_run : length (evaluate_and_create_alerts uuids 30 none 10 entries []).0 ≡ 13
unfolding evaluate_and_create_alerts evaluate_entries create_alerts_for_intelligence create_alerts
    existing_alert alert_candidates candidate_entries context_of seen_later sort_by is_critical
    known_exploited is_high_risk_vehicle_critical cve_source_count source_count same_cve all_names
    all_urls to_set component_key normalize_column scoring_metadata burst_context burst_in
    burst_matches max_risk risk_level_of sorted insert_sorted text_runs value_runs
alerts_run = refl

evaluate_again_example :
    let alerts' = (evaluate_and_create_alerts uuids 30 none 10 entries []).1 in
    evaluate_and_create_alerts uuids 40 none 10 entries alerts' ≡ ([], alerts')
evaluate_again_example = evaluate_again uuids uuids 30 40 none 10 entries []

evaluate-OneEach_example : OneEach (evaluate_and_create_alerts uuids 30 (some "a") 10 entries []).1
evaluate-OneEach_example = evaluate-OneEach uuids 30 (some "a") 10 entries [] tt

candidates-AtLeast_example :
    All (AtLeast (entry_of "a" "critical")) (alert_candidates (entry_of "a" "critical") entries)
candidates-AtLeast_example = candidates-AtLeast (entry_of "a" "critical") entries

known_exploited-tag_example :
    known_exploited (record (entry_of "a" "high") { tags = "cisa-kev" ∷ "cisa-kev" ∷ [] }) ≡ (
      contains ("kev" ∷ "known_exploited" ∷ []) (normalize_column (some "cisa-kev"))
      || known_exploited (entry_of "a" "high"))
known_exploited-tag_example = known_exploited-tag (entry_of "a" "high") "cisa-kev"
