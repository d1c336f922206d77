-- ===== src/Search/Alerts/Status.antt =====
-- The handlers that change alerts, backend/app/api/routes/alerts.py, and what they answer.
use sentinel_drive.Prelude.{
  ℕ, String, Bool, false, not, Option, none, some, List, [], ◌∷◌, map, ◌⊎◌, inl, inr, ◌==◌,
  string_Eq, nat_Eq, option_Eq, if◌then◌else◌, find_first, leb, any, length,
}
use sentinel_drive.Text.{strip}
use sentinel_drive.Value.{Python, Value, str, dict, Fields, from_items, text_or_none}
use sentinel_drive.Alerts.Entry.{RiskLevel, Entry}
use sentinel_drive.Alerts.Service.{Alert, AlertStatus, closed, evaluate_and_create_alerts}
use sentinel_drive.Sanitize.{size}
use sentinel_drive.Api.Safety.{Web, safe_text, safe_dict, looks_sensitive_value}
use sentinel_drive.Access.Guards.{
  User, Gate, HttpError, AuditEvent, status_change, alert_closure, record_audit_event,
  get_current_user, alert_not_found, intelligence_not_found,
}
use sentinel_drive.Search.Alerts.{status_value, same_status}

-- The body of a change: `none` outside is a field that was not sent.
pub record StatusUpdate : Type 0 where
  pub status : AlertStatus
  pub notes : Option (Option String)

-- `AlertStatusUpdateRequest.strip_notes` and the length of the notes; `none` outside is an error.
unfoldable pub strip_notes : Web → Option String → Option (Option String)
strip_notes W none = some none
strip_notes W (some value) =
    let stripped = strip value in
    if looks_sensitive_value W stripped
    then none
    else if stripped == ""
    then some none
    else if leb (size stripped) 2000
    then some (some stripped)
    else none

unfoldable pub get_alert : String → List Alert → Option Alert
get_alert id = find_first (λ a. a.alert_id == id)

unfoldable pub write_alert : Alert → List Alert → List Alert
write_alert alert = map (λ a. if a.alert_id == alert.alert_id then alert else a)

-- `_audit_snapshot`
unfoldable pub audit_snapshot : Web → Alert → Value
audit_snapshot W a = dict (
    from_items (
      ("id", str a.alert_id)
      ∷ ("status", str (status_value a.status))
      ∷ ("notes", text_or_none (safe_text W a.notes))
      ∷ ("triggering_rule", str a.rule)
      ∷ ("threat_intelligence_id", str a.intelligence)
      ∷ []))

abbrev pub notes_after : Option (Option String) → Option String → Option String
notes_after none old = old
notes_after (some new) old = new

abbrev pub changed_alert : StatusUpdate → Alert → Alert
changed_alert u a = record a { status = u.status; notes = notes_after u.notes a.notes }

-- The alerts and the audit log.
pub record AlertTables : Type 0 where
  pub alerts : List Alert
  pub events : List AuditEvent

unfoldable pub change_status :
    Web → User → StatusUpdate → AlertTables → Option Alert → (HttpError ⊎ Alert) × AlertTables
unfolding write_alert audit_snapshot
change_status W user u t none = (inl alert_not_found, t)
change_status W user u t (some alert) =
    let changed = changed_alert u alert in
    (
      inr changed,
      record {
        alerts = write_alert changed t.alerts;
        events =
            record_audit_event
              (record {
                action = if same_status u.status closed then alert_closure else status_change;
                entity_type = "alert";
                summary = "Alert status updated";
                actor_user_id = some user.id;
                entity_id = some alert.alert_id;
                before = audit_snapshot W alert;
                after = audit_snapshot W changed;
                metadata = from_items (
                    ("triggering_rule", str alert.rule)
                    ∷ ("threat_intelligence_id", str alert.intelligence)
                    ∷ []);
              })
              t.events;
      },
    )

abbrev pub guarded_change :
    HttpError ⊎ User
    → AlertTables
    → (User → (HttpError ⊎ Alert) × AlertTables)
    → (HttpError ⊎ Alert) × AlertTables
guarded_change (inl e) t handler = (inl e, t)
guarded_change (inr user) t handler = handler user

unfoldable pub update_alert_status :
    Python
    → Web
    → Gate
    → List User
    → Option (String × String)
    → String
    → StatusUpdate
    → AlertTables
    → (HttpError ⊎ Alert) × AlertTables
unfolding change_status get_alert
update_alert_status P W G users credentials id u t =
    guarded_change (get_current_user P G users credentials) t
      λ user. change_status W user u t (get_alert id t.alerts)

-- `AlertResponse`: what is shown of an alert.
pub record AlertResponse : Type 0 where
  pub id : String
  pub title : String
  pub threat_intelligence_id : String
  pub triggering_rule : String
  pub risk_level : RiskLevel
  pub triggered_at : ℕ
  pub status : AlertStatus
  pub notes : Option String
  pub metadata : Fields

unfoldable pub alert_response : Web → Python → Alert → AlertResponse
alert_response W P a = record {
  id = a.alert_id;
  title = a.title;
  threat_intelligence_id = a.intelligence;
  triggering_rule = a.rule;
  risk_level = a.risk_level;
  triggered_at = a.triggered_at;
  status = a.status;
  notes = safe_text W a.notes;
  metadata = safe_dict W P a.metadata;
}

abbrev pub is_missing_entry : Option String → List Entry → Bool
is_missing_entry none entries = false
is_missing_entry (some id) entries = not (any (λ e. e.entry_id == id) entries)

-- The evaluation on request: the number of alerts created and their identifiers, and the alerts.
unfoldable pub evaluate_alerts :
    (ℕ → String)
    → ℕ
    → Option String
    → ℕ
    → List Entry
    → List Alert
    → (HttpError ⊎ (ℕ × List String)) × List Alert
evaluate_alerts uuid now id limit entries alerts =
    if is_missing_entry id entries
    then (inl intelligence_not_found, alerts)
    else (let (created, after) = evaluate_and_create_alerts uuid now id limit entries alerts in
        (inr (length created, map (λ a. a.alert_id) created), after))
