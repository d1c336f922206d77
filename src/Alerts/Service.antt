-- ===== src/Alerts/Service.antt =====
-- Evaluation of the rules, backend/app/services/alerts.py: alerts are created once for each entry
-- and rule. The alerts are one list, of which `entry.alerts` is the part of the entry; a new
-- identifier is given by `uuid` from the number of alerts so far.
use sentinel_drive.Prelude.{
  ℕ, String, Bool, true, false, ◌&&◌, not, Option, none, some, List, [], ◌∷◌, ◌++◌, keep, length,
  take, map, any, contains, sort_by, if◌then◌else◌, ltb, ◌==◌, string_Eq,
}
use Prim.Native.Nat.{max}
use sentinel_drive.Value.{Fields}
use sentinel_drive.Text.{text_le}
use sentinel_drive.Alerts.Entry.{Entry, RiskLevel}
use sentinel_drive.Alerts.Rules.{Candidate, alert_candidates}

pub data AlertStatus : Type 0 where
  opened : AlertStatus
  acknowledged : AlertStatus
  closed : AlertStatus

pub record Alert : Type 0 where
  pub alert_id : String
  pub title : String
  pub intelligence : String
  pub rule : String
  pub risk_level : RiskLevel
  pub triggered_at : ℕ
  pub status : AlertStatus
  pub notes : Option String
  pub metadata : Fields

abbrev pub is_alert_of : String → String → Alert → Bool
is_alert_of entry_id rule a = a.intelligence == entry_id && a.rule == rule

-- `_existing_alert(...) is not None`
unfoldable pub existing_alert : String → String → List Alert → Bool
existing_alert entry_id rule = any (is_alert_of entry_id rule)

abbrev pub new_alert : (ℕ → String) → ℕ → Entry → Candidate → List Alert → Alert
new_alert uuid now e c alerts = record {
  alert_id = uuid (length alerts);
  title = c.title;
  intelligence = e.entry_id;
  rule = c.rule;
  risk_level = c.risk_level;
  triggered_at = now;
  status = opened;
  notes = none;
  metadata = c.metadata;
}

-- The alert of a candidate, unless the rule has one.
abbrev pub created_by : (ℕ → String) → ℕ → Entry → Candidate → List Alert → List Alert
created_by uuid now e c alerts =
    if existing_alert e.entry_id c.rule alerts then [] else new_alert uuid now e c alerts ∷ []

-- The loop over the candidates: the alerts created, and all alerts after it.
unfoldable pub create_alerts :
    (ℕ → String) → ℕ → Entry → List Candidate → List Alert → List Alert × List Alert
create_alerts uuid now e [] alerts = ([], alerts)
create_alerts uuid now e (c ∷ candidates) alerts =
    let new = created_by uuid now e c alerts in
    let (created, alerts') = create_alerts uuid now e candidates (alerts ++ new) in
    (new ++ created, alerts')

unfoldable pub create_alerts_for_intelligence :
    (ℕ → String) → ℕ → Entry → List Entry → List Alert → List Alert × List Alert
create_alerts_for_intelligence uuid now e entries alerts =
    create_alerts uuid now e (alert_candidates e entries) alerts

-- ORDER BY last_seen_at DESC, id ASC
unfoldable pub seen_later : Entry → Entry → Bool
seen_later e f =
    if ltb f.last_seen_at e.last_seen_at
    then true
    else if ltb e.last_seen_at f.last_seen_at
    then false
    else text_le e.entry_id f.entry_id

-- `_candidate_entries`
unfoldable pub candidate_entries : Option String → ℕ → List Entry → List Entry
candidate_entries none limit table = take limit (sort_by seen_later table)
candidate_entries (some entry_id) limit table =
    keep (λ e. e.entry_id == entry_id) (sort_by seen_later table)

abbrev pub context_limit : ℕ
context_limit = 500

-- The entries that are evaluated, behind the context that lacks them.
abbrev pub missing_from : List Entry → List Entry → List Entry
missing_from context entries =
    keep (λ e. not (contains (map (λ c. c.entry_id) context) e.entry_id)) entries

unfoldable pub context_of : ℕ → List Entry → List Entry → List Entry
context_of limit table entries =
    let context = candidate_entries none (max limit context_limit) table in
    context ++ missing_from context entries

unfoldable pub evaluate_entries :
    (ℕ → String) → ℕ → List Entry → List Entry → List Alert → List Alert × List Alert
evaluate_entries uuid now context [] alerts = ([], alerts)
evaluate_entries uuid now context (e ∷ entries) alerts =
    let (created, alerts') = create_alerts_for_intelligence uuid now e context alerts in
    let (more, alerts'') = evaluate_entries uuid now context entries alerts' in
    (created ++ more, alerts'')

unfoldable pub evaluate_and_create_alerts :
    (ℕ → String) → ℕ → Option String → ℕ → List Entry → List Alert → List Alert × List Alert
evaluate_and_create_alerts uuid now intelligence_id limit table alerts =
    let entries = candidate_entries intelligence_id limit table in
    evaluate_entries uuid now (context_of limit table entries) entries alerts
