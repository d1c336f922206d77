-- ===== src/Alerts/Rules.antt =====
-- The five rules of backend/app/services/alerts.py and the candidates that they give.
use sentinel_drive.Prelude.{
  ℕ, ◌+◌, String, ◌<>◌, Bool, true, false, ◌||◌, ◌&&◌, not, Option, none, some, List, [], ◌∷◌, ◌++◌,
  keep, length, map, any, contains, if◌then◌else◌, leb, ◌==◌, string_Eq, pos,
}
use sentinel_drive.Value.{
  Value, int, str, dict, list, Fields, get, truthy, update, from_items, from_list, text_or_none,
  dict_or_empty,
}
use sentinel_drive.Scoring.Factors.{sorted}
use sentinel_drive.Normalization.Record.{number_value}
use sentinel_drive.Alerts.Entry.{
  Entry, RiskLevel, medium, high, critical, max_risk, risk_level_of, normalize_column,
  component_key, scoring_metadata, is_level, to_set, cve_source_count, upper_or_empty,
}

pub record Candidate : Type 0 where
  pub rule : String
  pub title : String
  pub risk_level : RiskLevel
  pub metadata : Fields

abbrev pub candidate_metadata : Entry → String → List (String × Value) → Fields
candidate_metadata e reason more =
    update
      (from_items (
        ("reason", str reason)
        ∷ ("intelligence_id", str e.entry_id)
        ∷ ("cve_id", text_or_none e.cve_id)
        ∷ ("risk_score", number_value e.risk_score)
        ∷ ("risk_level", text_or_none e.risk_level)
        ∷ ("severity", text_or_none e.severity)
        ∷ ("vehicle_component", text_or_none e.vehicle_component)
        ∷ ("attack_surface", text_or_none e.attack_surface)
        ∷ ("scoring", dict (scoring_metadata e))
        ∷ []))
      (from_items more)

-- `_candidate`
abbrev pub candidate :
    Entry → String → String → RiskLevel → String → List (String × Value) → Candidate
candidate e rule title level reason more = record {
  rule = rule;
  title = title;
  risk_level = level;
  metadata = candidate_metadata e reason more;
}

unfoldable pub is_critical : Entry → Bool
is_critical e = is_level "critical" e.risk_level || is_level "critical" e.severity

abbrev pub known_exploited_tags : List String
known_exploited_tags = "cisa-kev" ∷ "kev" ∷ "known_exploited" ∷ "known-exploited" ∷ []

unfoldable pub known_exploited : Entry → Bool
known_exploited e =
    let signals = dict_or_empty (get (scoring_metadata e) "signals") in
    let names = map (λ s. normalize_column (some s)) e.source_names in
    is_level "exploited" e.exploit_status
    || truthy (get signals "known_exploited")
    || any (contains known_exploited_tags) (map (λ s. normalize_column (some s)) e.tags)
    || contains names "cisa-kev"
    || contains names "cisa_kev"
    || truthy (get e.metadata "date_added")
    || truthy (get e.metadata "known_ransomware_campaign_use")
    || truthy (get e.metadata "vulnerability_name")

abbrev pub vehicle_critical_components : List String
vehicle_critical_components = "app" ∷ "tbox" ∷ "ota" ∷ "cloud_api" ∷ "can" ∷ "v2x" ∷ "charging" ∷ []

abbrev pub is_high_risk : Entry → Bool
is_high_risk e = is_level "high" e.risk_level || is_level "critical" e.risk_level

unfoldable pub is_high_risk_vehicle_critical : Entry → Bool
is_high_risk_vehicle_critical e =
    is_high_risk e && contains vehicle_critical_components (component_key e)

pub data Scope : Type 0 where
  vendor : Scope
  component : Scope

abbrev pub scope_name : Scope → String
scope_name vendor = "vendor"
scope_name component = "component"

abbrev pub scope_value : Scope → Entry → String
scope_value vendor e = normalize_column e.affected_vendor
scope_value component e = component_key e

-- Seven days in microseconds.
abbrev pub burst_lookback : ℕ
burst_lookback = 604800000000

abbrev pub in_window : Entry → Entry → Bool
in_window e other =
    leb e.first_seen_at (other.first_seen_at + burst_lookback)
    && leb other.first_seen_at e.first_seen_at

-- The value that the scope is about, before it is normalised.
abbrev pub scope_column : Scope → Entry → Option String
scope_column vendor e = e.affected_vendor
scope_column component e = some (component_key e)

unfoldable pub burst_matches : Scope → String → Entry → List Entry → List String
burst_matches scope value e entries =
    map (λ o. o.entry_id)
      (keep (λ o. is_high_risk o && in_window e o && scope_value scope o == value) entries)

pub record Burst : Type 0 where
  pub scope : Scope
  pub value : String
  pub match_count : ℕ
  pub ids : List String

-- One scope of `_burst_context`.
unfoldable pub burst_in : Scope → Entry → List Entry → Option Burst
burst_in scope e entries =
    let value = normalize_column (scope_column scope e) in
    let ids = burst_matches scope value e entries in
    if value == ""
    then none
    else if leb 3 (length (to_set ids))
    then some (record {
      scope = scope;
      value = value;
      match_count = length (to_set ids);
      ids = sorted ids;
    })
    else none

abbrev pub or_burst : Option Burst → Option Burst → Option Burst
or_burst none b = b
or_burst (some b) _ = some b

unfoldable pub burst_context : Entry → List Entry → Option Burst
burst_context e entries = or_burst (burst_in vendor e entries) (burst_in component e entries)

abbrev pub burst_items : Burst → List (String × Value)
burst_items b =
    ("scope", str (scope_name b.scope))
    ∷ ("value", str b.value)
    ∷ ("lookback_days", int (pos 7))
    ∷ ("match_count", int (pos b.match_count))
    ∷ ("matched_intelligence_ids", list (from_list (map str b.ids)))
    ∷ []

abbrev pub given : Bool → Candidate → List Candidate
given true c = c ∷ []
given false c = []

module _ (e : Entry) where
  abbrev pub critical_candidate : Candidate
  critical_candidate =
      candidate e "critical-intelligence" "关键风险情报" critical "critical intelligence" []

  abbrev pub exploited_candidate : Candidate
  exploited_candidate =
      candidate e "known-exploited" "已知在野利用情报" (max_risk (risk_level_of e.risk_level) high)
        "known exploited signal" []

  abbrev pub component_candidate : Candidate
  component_candidate =
      candidate e ("vehicle-critical-" <> component_key e) "高风险车端关键组件情报"
        (max_risk (risk_level_of e.risk_level) high) "high-risk vehicle critical component" []

  abbrev pub sources_candidate : ℕ → Candidate
  sources_candidate count =
      candidate e ("multi-source-cve-" <> upper_or_empty e.cve_id) "多来源 CVE 情报"
        (max_risk (risk_level_of e.risk_level) medium) "same CVE observed across multiple sources"
        (("source_count", int (pos count)) ∷ [])

  abbrev pub burst_candidates : Option Burst → List Candidate
  burst_candidates none = []
  burst_candidates (some b) =
      candidate e ("burst-" <> scope_name b.scope <> "-" <> b.value) "短期高风险情报集中出现"
        (max_risk (risk_level_of e.risk_level) high) "multiple high-risk items in short period"
        (burst_items b)
      ∷ []

  unfoldable pub alert_candidates : List Entry → List Candidate
  alert_candidates entries =
      let count = cve_source_count e entries in
      given (is_critical e) critical_candidate
      ++ (given (known_exploited e) exploited_candidate
          ++ (given (is_high_risk_vehicle_critical e) component_candidate
              ++ (given (not (upper_or_empty e.cve_id == "") && leb 2 count)
                    (sources_candidate count)
                  ++ burst_candidates (burst_context e entries))))
