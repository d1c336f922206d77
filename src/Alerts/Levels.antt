-- ===== src/Alerts/Levels.antt =====
-- The level of an alert, and what a burst is.
use sentinel_drive.Prelude.{
  ◌≤◌, ◌≡◌, refl, Bool, true, false, ◌&&◌, not, Option, none, some, List, All, All-append, length,
  leb, Bool-cases, inl, inr, arith, ◌==◌, string_Eq,
}
use sentinel_drive.Alerts.Entry.{
  Entry, RiskLevel, info, low, medium, high, critical, max_risk, risk_order, risk_level_of,
  cve_source_count, upper_or_empty, to_set, normalize_column,
}
use sentinel_drive.Alerts.Rules.{
  Candidate, given, alert_candidates, critical_candidate, exploited_candidate, component_candidate,
  sources_candidate, burst_candidates, is_critical, known_exploited, is_high_risk_vehicle_critical,
  Burst, burst_context, burst_in, or_burst, vendor, component, burst_matches, Scope, scope_column,
}

max_risk-left : (a b : RiskLevel) → risk_order a ≤ risk_order (max_risk a b)
unfolding max_risk
max_risk-left a b = elim (Bool-cases (leb (risk_order b) (risk_order a))) [
  | inl p ↦ rw p (omega arith)
  | inr p ↦ rw p (ground arith)
]

order_below : (a : RiskLevel) → risk_order a ≤ 4
order_below info = omega arith
order_below low = omega arith
order_below medium = omega arith
order_below high = omega arith
order_below critical = omega arith

module _ (e : Entry) where
  abbrev pub AtLeast : Candidate → Type 0
  AtLeast c = risk_order (risk_level_of e.risk_level) ≤ risk_order c.risk_level

  given-All : (b : Bool) (c : Candidate) → AtLeast c → All AtLeast (given b c)
  given-All true c h = (h, tt)
  given-All false c h = tt

  burst-All : (o : Option Burst) → All AtLeast (burst_candidates e o)
  burst-All none = tt
  burst-All (some b) = (max_risk-left (risk_level_of e.risk_level) high, tt)

  -- No alert is of a lower risk level than its entry.
  pub candidates-AtLeast : (entries : List Entry) → All AtLeast (alert_candidates e entries)
  unfolding alert_candidates
  candidates-AtLeast entries =
      let level = risk_level_of e.risk_level in
      let count = cve_source_count e entries in
      All-append AtLeast (given (is_critical e) (critical_candidate e)) _
        (given-All (is_critical e) (critical_candidate e) (order_below level))
        (All-append AtLeast (given (known_exploited e) (exploited_candidate e)) _
          (given-All (known_exploited e) (exploited_candidate e) (max_risk-left level high))
          (All-append AtLeast (given (is_high_risk_vehicle_critical e) (component_candidate e)) _
            (given-All (is_high_risk_vehicle_critical e) (component_candidate e)
              (max_risk-left level high))
            (All-append AtLeast
              (given (not (upper_or_empty e.cve_id == "") && leb 2 count)
                (sources_candidate e count))
              _
              (given-All (not (upper_or_empty e.cve_id == "") && leb 2 count)
                (sources_candidate e count) (max_risk-left level medium))
              (burst-All (burst_context e entries)))))

-- A burst stands for three or more distinct high-risk entries of its scope and value in the window.
abbrev pub EnoughMatches : Entry → List Entry → Option Burst → Type 0
EnoughMatches e entries none = Unit
EnoughMatches e entries (some b) =
    (b.match_count ≡ length (to_set (burst_matches b.scope b.value e entries)))
    × (3 ≤ b.match_count)
    × ((b.value == "") ≡ false)

burst_in-Enough :
    (scope : Scope) (e : Entry) (entries : List Entry)
    → EnoughMatches e entries (burst_in scope e entries)
unfolding burst_in
burst_in-Enough scope e entries =
    let value = normalize_column (scope_column scope e) in
    elim (Bool-cases (value == "")) [
      | inl p ↦ rw p tt
      | inr p ↦ elim (Bool-cases (leb 3 (length (to_set (burst_matches scope value e entries))))) [
        | inl q ↦ rw (p, q) (refl, ground arith, p)
        | inr q ↦ rw (p, q) tt
      ]
    ]

or_burst-Enough :
    (e : Entry) (entries : List Entry) (a b : Option Burst)
    → EnoughMatches e entries a
    → EnoughMatches e entries b
    → EnoughMatches e entries (or_burst a b)
or_burst-Enough e entries none b h k = k
or_burst-Enough e entries (some a) b h k = h

-- A burst that is told of stands for three or more distinct entries of high risk which share its
-- vendor or component, were first seen in the seven days up to the entry, and are counted once each.
pub burst_context-Enough :
    (e : Entry) (entries : List Entry) → EnoughMatches e entries (burst_context e entries)
unfolding burst_context
burst_context-Enough e entries =
    or_burst-Enough e entries (burst_in vendor e entries) (burst_in component e entries)
      (burst_in-Enough vendor e entries) (burst_in-Enough component e entries)
