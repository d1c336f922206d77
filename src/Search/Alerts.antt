-- ===== src/Search/Alerts.antt =====
-- The routes of alerts, backend/app/api/routes/alerts.py. The time stamps `created_at` and
-- `updated_at` of the rows are not modelled.
pub mod Agree
pub mod Change
pub mod Status
use sentinel_drive.Prelude.{
  ℕ, String, Bool, true, false, ◌&&◌, ◌||◌, not, Option, none, some, List, [], ◌∷◌, ◌++◌, map, ◌⊎◌,
  inl, inr, ◌==◌, string_Eq, nat_Eq, option_Eq, if◌then◌else◌, find_first, leb, ltb, keep, sort_by,
  any, length,
}
use sentinel_drive.Text.{strip, lower, is_in, text_le}
use sentinel_drive.Value.{
  Python, Value, none_value, str, dict, Fields, end, from_items, text_or_none,
}
use sentinel_drive.Alerts.Entry.{RiskLevel, risk_value, risk_order, Entry}
use sentinel_drive.Alerts.Service.{
  Alert, AlertStatus, opened, acknowledged, closed, evaluate_and_create_alerts,
}
use sentinel_drive.Sanitize.{size}
use sentinel_drive.Api.Safety.{Web, safe_text, safe_dict, looks_sensitive_value}
use sentinel_drive.Access.Guards.{
  User, Gate, HttpError, AuditEvent, status_change, alert_closure, record_audit_event,
  get_current_user, alert_not_found, intelligence_not_found, invalid_intelligence_id,
}
use sentinel_drive.Search.{clean, like_pattern, ilike, Page, page_of}
use sentinel_drive.Search.Order.{lex}

pub data AlertSort : Type 0 where
  recent by_risk_level : AlertSort

pub record AlertSearchParams : Type 0 where
  pub risk_level : Option RiskLevel
  pub status : Option AlertStatus
  pub triggering_rule : Option String
  pub intelligence_id : Option String
  pub sort : AlertSort

-- The values of `AlertStatus`.
abbrev pub status_value : AlertStatus → String
status_value opened = "open"
status_value acknowledged = "acknowledged"
status_value closed = "closed"

-- Equality of enumerated columns.
abbrev status_code : AlertStatus → ℕ
status_code opened = 0
status_code acknowledged = 1
status_code closed = 2

abbrev pub same_level : RiskLevel → RiskLevel → Bool
same_level a b = risk_order a == risk_order b

abbrev pub same_status : AlertStatus → AlertStatus → Bool
same_status a b = status_code a == status_code b

-- A condition that is there only where its parameter is set; a text that is empty counts as none.
abbrev pub if_given : {A : Type 0} → Option A → (A → Bool) → Bool
if_given none test = true
if_given (some a) test = test a

abbrev pub if_text : Option String → (String → Bool) → Bool
if_text none test = true
if_text (some s) test = if s == "" then true else test s

-- `_build_alert_statement`: the conditions of its WHERE, joined by AND.
unfoldable pub statement_selects : AlertSearchParams → Alert → Bool
statement_selects p a =
    if_given p.risk_level (λ level. same_level a.risk_level level)
    && (if_given p.status (λ status. same_status a.status status)
        && (if_text p.triggering_rule (λ rule. ilike a.rule (like_pattern rule))
            && if_given p.intelligence_id (λ id. a.intelligence == id)))

abbrev pub later_first : Alert → Alert → Bool
later_first a b = leb b.triggered_at a.triggered_at

abbrev pub riskier_first : Alert → Alert → Bool
riskier_first a b = leb (risk_order b.risk_level) (risk_order a.risk_level)

abbrev pub id_first : Alert → Alert → Bool
id_first a b = text_le a.alert_id b.alert_id

-- `_sql_order_by`
unfoldable pub sql_order_by : AlertSort → Alert → Alert → Bool
sql_order_by by_risk_level = lex riskier_first (lex later_first id_first)
sql_order_by recent = lex later_first id_first

-- `_matches_alert`
unfoldable pub matches_alert : AlertSearchParams → Alert → Bool
matches_alert p a =
    if not (if_given p.risk_level (λ level. risk_value a.risk_level == risk_value level))
    then false
    else if not (if_given p.status (λ status. status_value a.status == status_value status))
    then false
    else if not (if_text p.triggering_rule (λ rule. is_in (lower rule) (lower a.rule)))
    then false
    else if_given p.intelligence_id (λ id. a.intelligence == id)

-- `_sort_alerts`: by identifier, and then in a stable way by the key, the greatest first.
unfoldable pub sort_alerts : List Alert → AlertSort → List Alert
sort_alerts alerts by_risk_level = sort_by (lex riskier_first later_first) (sort_by id_first alerts)
sort_alerts alerts recent = sort_by later_first (sort_by id_first alerts)

-- `_parse_alert_intelligence_id`
abbrev pub parsed_or_error : Option String → HttpError ⊎ Option String
parsed_or_error none = inl invalid_intelligence_id
parsed_or_error (some id) = inr (some id)

unfoldable pub parse_alert_intelligence_id : Gate → Option String → HttpError ⊎ Option String
parse_alert_intelligence_id G none = inr none
parse_alert_intelligence_id G (some value) =
    if value == "" then inr none else parsed_or_error (G.uuid_of (strip value))

-- The two ways to a page: with a session of the database, and with one that is none.
unfoldable pub page_by_statement : List Alert → AlertSearchParams → ℕ → ℕ → Page Alert
unfolding statement_selects sql_order_by page_of
page_by_statement alerts p page limit =
    page_of (sort_by (sql_order_by p.sort) (keep (statement_selects p) alerts)) page limit

unfoldable pub page_in_memory : List Alert → AlertSearchParams → ℕ → ℕ → Page Alert
unfolding matches_alert sort_alerts page_of
page_in_memory alerts p page limit =
    page_of (sort_alerts (keep (matches_alert p) alerts) p.sort) page limit

-- The query of a request: the levels and the status are parsed by the framework.
pub record AlertQuery : Type 0 where
  pub risk_level : Option RiskLevel
  pub status : Option AlertStatus
  pub triggering_rule : Option String
  pub intelligence_id : Option String
  pub sort : AlertSort
  pub page : ℕ
  pub limit : ℕ

abbrev pub listed_alerts :
    List Alert → AlertQuery → HttpError ⊎ Option String → HttpError ⊎ Page Alert
listed_alerts alerts q (inl e) = inl e
listed_alerts alerts q (inr id) = inr (
    page_by_statement alerts
      (record {
        risk_level = q.risk_level;
        status = q.status;
        triggering_rule = clean q.triggering_rule;
        intelligence_id = id;
        sort = q.sort;
      })
      q.page q.limit)

-- What stands behind the guard of a user.
abbrev pub for_user : {A : Type 0} → HttpError ⊎ User → (User → HttpError ⊎ A) → HttpError ⊎ A
for_user (inl e) handler = inl e
for_user (inr user) handler = handler user

unfoldable pub list_alerts :
    Python
    → Gate
    → List User
    → Option (String × String)
    → List Alert
    → AlertQuery
    → HttpError ⊎ Page Alert
unfolding page_by_statement
list_alerts P G users credentials alerts q =
    for_user (get_current_user P G users credentials)
      λ user. listed_alerts alerts q (parse_alert_intelligence_id G q.intelligence_id)
