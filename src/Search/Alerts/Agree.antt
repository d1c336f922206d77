-- ===== src/Search/Alerts/Agree.antt =====
-- The two ways in which backend/app/api/routes/alerts.py lists alerts give the same pages.
use mathlib.Core.Path.{fun_ext}
use sentinel_drive.Prelude.{
  ℕ, String, Bool, true, false, ◌&&◌, not, Option, none, some, List, ◌≡◌, refl, ◌∙◌, sym, ap, ◌==◌,
  string_Eq, nat_Eq, if◌then◌else◌, keep, sort_by, arith,
}
use sentinel_drive.Text.{lower, is_in}
use sentinel_drive.Text.Order.{text_le_total, text_le_trans}
use sentinel_drive.Alerts.Entry.{RiskLevel, risk_value, info, low, medium, high, critical}
use sentinel_drive.Alerts.Service.{Alert, AlertStatus, opened, acknowledged, closed}
use sentinel_drive.Search.{page_of, ilike, like_pattern}
use sentinel_drive.Search.Like.{ilike-like_pattern}
use sentinel_drive.Search.Order.{lex, IsOrder, lex-IsOrder, sort_by_twice}
use sentinel_drive.Search.Alerts.{
  AlertSearchParams, AlertSort, recent, by_risk_level, same_level, same_status, status_value,
  if_given, if_text, statement_selects, matches_alert, later_first, riskier_first, id_first,
  sql_order_by, sort_alerts, page_by_statement, page_in_memory,
}

levels_agree : (a b : RiskLevel) → (risk_value a == risk_value b) ≡ same_level a b
levels_agree info info = refl
levels_agree info _ = refl
levels_agree low info = refl
levels_agree low _ = refl
levels_agree medium info = refl
levels_agree medium _ = refl
levels_agree high info = refl
levels_agree high _ = refl
levels_agree critical info = refl
levels_agree critical _ = refl

statuses_agree : (a b : AlertStatus) → (status_value a == status_value b) ≡ same_status a b
statuses_agree opened opened = refl
statuses_agree opened _ = refl
statuses_agree acknowledged opened = refl
statuses_agree acknowledged _ = refl
statuses_agree closed opened = refl
statuses_agree closed _ = refl

if_given-cong :
    {A : Type 0} (o : Option A) (p q : A → Bool)
    → ((a : A) → p a ≡ q a)
    → if_given o p ≡ if_given o q
if_given-cong none p q h = refl
if_given-cong (some a) p q h = h a

if_text-cong :
    (o : Option String) (p q : String → Bool)
    → ((s : String) → p s ≡ q s)
    → if_text o p ≡ if_text o q
if_text-cong none p q h = refl
if_text-cong (some s) p q h = ap (λ b. if s == "" then true else b) (h s)

later_first-IsOrder : IsOrder later_first
later_first-IsOrder = record { total = λ x y h. ground arith; trans = λ x y z h k. ground arith }

riskier_first-IsOrder : IsOrder riskier_first
riskier_first-IsOrder = record { total = λ x y h. ground arith; trans = λ x y z h k. ground arith }

id_first-IsOrder : IsOrder id_first
id_first-IsOrder = record {
  total = λ x y. text_le_total x.alert_id y.alert_id;
  trans = λ x y z. text_le_trans x.alert_id y.alert_id z.alert_id;
}

both_tests :
    (a b c d : Bool)
    → (if not a then false else if not b then false else if not c then false else d)
      ≡ (a && (b && (c && d)))
both_tests true true true d = refl
both_tests true true false d = refl
both_tests true false c d = refl
both_tests false b c d = refl

-- An alert matches in memory exactly where the statement selects it.
matches-selects : (p : AlertSearchParams) (a : Alert) → matches_alert p a ≡ statement_selects p a
unfolding matches_alert statement_selects
matches-selects p a =
    rw
      (
        if_given-cong p.risk_level (λ level. risk_value a.risk_level == risk_value level)
            (λ level. same_level a.risk_level level) (λ level. levels_agree a.risk_level level),
        if_given-cong p.status (λ status. status_value a.status == status_value status)
            (λ status. same_status a.status status) (λ status. statuses_agree a.status status),
        if_text-cong p.triggering_rule (λ rule. is_in (lower rule) (lower a.rule))
            (λ rule. ilike a.rule (like_pattern rule))
            (λ rule. sym (ilike-like_pattern a.rule rule)),
      )
      (both_tests (if_given p.risk_level (λ level. same_level a.risk_level level))
        (if_given p.status (λ status. same_status a.status status))
        (if_text p.triggering_rule (λ rule. ilike a.rule (like_pattern rule)))
        (if_given p.intelligence_id (λ id. a.intelligence == id)))

lex_assoc : (p q r : Alert → Alert → Bool) (a b : Alert) → lex (lex p q) r a b ≡ lex p (lex q r) a b
lex_assoc p q r a b = ground arith

sorts_agree : (s : AlertSort) (xs : List Alert) → sort_alerts xs s ≡ sort_by (sql_order_by s) xs
unfolding sort_alerts sql_order_by
sorts_agree recent xs = sort_by_twice later_first id_first later_first-IsOrder id_first-IsOrder xs
sorts_agree by_risk_level xs =
    sort_by_twice (lex riskier_first later_first) id_first
      (lex-IsOrder riskier_first later_first riskier_first-IsOrder later_first-IsOrder)
      id_first-IsOrder xs
    ∙ ap (λ le. sort_by le xs)
        (fun_ext (λ a. fun_ext (λ b. lex_assoc riskier_first later_first id_first a b)))

-- The page that is cut from the database's answer is the page that is selected, sorted in two passes
-- and cut in memory, for all parameters, with the total and the mark of a next page.
pub pages_agree :
    (alerts : List Alert) (p : AlertSearchParams) (page limit : ℕ)
    → page_by_statement alerts p page limit ≡ page_in_memory alerts p page limit
unfolding page_by_statement page_in_memory
pages_agree alerts p page limit =
    ap (λ xs. page_of xs page limit)
      (ap (λ f. sort_by (sql_order_by p.sort) (keep f alerts)) (sym (fun_ext (matches-selects p)))
        ∙ sym (sorts_agree p.sort (keep (matches_alert p) alerts)))
