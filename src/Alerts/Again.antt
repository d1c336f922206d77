-- ===== src/Alerts/Again.antt =====
-- Alerts are created once: of one entry and one rule there is one alert, however often the rules
-- are evaluated.
use sentinel_drive.Prelude.{
  ℕ, String, ◌≡◌, refl, sym, ap, ◌∙◌, true, false, ◌||◌, ◌&&◌, Option, List, [], ◌∷◌, ◌++◌,
  any-append, All, Bool-cases, inl, inr, ◌==◌, string_Eq, beq_refl, or-true_right, or-false, eq_iff,
}
use mathlib.Core.Path.{subst}
use mathlib.Core.List.{append-nil, append_assoc}
use sentinel_drive.Alerts.Entry.{Entry}
use sentinel_drive.Alerts.Rules.{Candidate, alert_candidates}
use sentinel_drive.Alerts.Service.{
  Alert, is_alert_of, existing_alert, new_alert, created_by, create_alerts,
  create_alerts_for_intelligence, candidate_entries, context_of, evaluate_entries,
  evaluate_and_create_alerts,
}

existing-append :
    (i r : String) (xs ys : List Alert)
    → existing_alert i r (xs ++ ys) ≡ (existing_alert i r xs || existing_alert i r ys)
unfolding existing_alert
existing-append i r xs ys = any-append (is_alert_of i r) xs ys

existing-grows :
    (i r : String) (xs ys : List Alert)
    → existing_alert i r xs ≡ true
    → existing_alert i r (xs ++ ys) ≡ true
existing-grows i r xs ys h = existing-append i r xs ys ∙ rw h refl

-- The alerts after a loop are those before it and those created.
create_alerts-append :
    (uuid : ℕ → String) (now : ℕ) (e : Entry) (cs : List Candidate) (alerts : List Alert)
    → (create_alerts uuid now e cs alerts).1 ≡ alerts ++ (create_alerts uuid now e cs alerts).0
unfolding create_alerts
create_alerts-append uuid now e [] alerts = sym (append-nil alerts)
create_alerts-append uuid now e (c ∷ cs) alerts =
    let new = created_by uuid now e c alerts in
    create_alerts-append uuid now e cs (alerts ++ new)
    ∙ append_assoc alerts new (create_alerts uuid now e cs (alerts ++ new)).0

-- Afterwards every candidate has its alert.
abbrev AllExist : String → List Candidate → List Alert → Type 0
AllExist i cs alerts = All (λ c. existing_alert i c.rule alerts ≡ true) cs

new_alert-exists :
    (uuid : ℕ → String) (now : ℕ) (e : Entry) (c : Candidate) (alerts : List Alert)
    → existing_alert e.entry_id c.rule (new_alert uuid now e c alerts ∷ []) ≡ true
unfolding existing_alert
new_alert-exists uuid now e c alerts = rw (beq_refl e.entry_id, beq_refl c.rule) refl

created-exists :
    (uuid : ℕ → String) (now : ℕ) (e : Entry) (c : Candidate) (alerts : List Alert)
    → existing_alert e.entry_id c.rule (alerts ++ created_by uuid now e c alerts) ≡ true
created-exists uuid now e c alerts = elim (Bool-cases (existing_alert e.entry_id c.rule alerts)) [
  | inl h ↦ existing-grows e.entry_id c.rule alerts _ h
  | inr h ↦ rw h (
      existing-append e.entry_id c.rule alerts _
      ∙ rw (new_alert-exists uuid now e c alerts)
          (or-true_right (existing_alert e.entry_id c.rule alerts)))
]

create_alerts-AllExist :
    (uuid : ℕ → String) (now : ℕ) (e : Entry) (cs : List Candidate) (alerts : List Alert)
    → AllExist e.entry_id cs (create_alerts uuid now e cs alerts).1
unfolding create_alerts
create_alerts-AllExist uuid now e [] alerts = tt
create_alerts-AllExist uuid now e (c ∷ cs) alerts =
    let new = created_by uuid now e c alerts in
    (
      subst (λ all. existing_alert e.entry_id c.rule all ≡ true)
          (sym (create_alerts-append uuid now e cs (alerts ++ new)))
          (existing-grows e.entry_id c.rule (alerts ++ new) _ (created-exists uuid now e c alerts)),
      create_alerts-AllExist uuid now e cs (alerts ++ new),
    )

AllExist-grows :
    (i : String) (cs : List Candidate) (xs ys : List Alert)
    → AllExist i cs xs
    → AllExist i cs (xs ++ ys)
AllExist-grows i [] xs ys h = tt
AllExist-grows i (c ∷ cs) xs ys (e, h) =
    (existing-grows i c.rule xs ys e, AllExist-grows i cs xs ys h)

-- Where every candidate has its alert, none is created.
create_alerts-none :
    (uuid : ℕ → String) (now : ℕ) (e : Entry) (cs : List Candidate) (alerts : List Alert)
    → AllExist e.entry_id cs alerts
    → create_alerts uuid now e cs alerts ≡ ([], alerts)
unfolding create_alerts
create_alerts-none uuid now e [] alerts h = refl
create_alerts-none uuid now e (c ∷ cs) alerts (p, h) =
    rw (p, append-nil alerts) (create_alerts-none uuid now e cs alerts h)

module _ (context : List Entry) where
  abbrev AllDone : List Entry → List Alert → Type 0
  AllDone entries alerts =
      All (λ e. AllExist e.entry_id (alert_candidates e context) alerts) entries

  evaluate-append :
      (uuid : ℕ → String) (now : ℕ) (entries : List Entry) (alerts : List Alert)
      → (evaluate_entries uuid now context entries alerts).1
        ≡ alerts ++ (evaluate_entries uuid now context entries alerts).0
  unfolding evaluate_entries create_alerts_for_intelligence
  evaluate-append uuid now [] alerts = sym (append-nil alerts)
  evaluate-append uuid now (e ∷ entries) alerts =
      let step = create_alerts uuid now e (alert_candidates e context) alerts in
      evaluate-append uuid now entries step.1
      ∙ (ap (λ all. all ++ (evaluate_entries uuid now context entries step.1).0)
            (create_alerts-append uuid now e (alert_candidates e context) alerts)
          ∙ append_assoc alerts step.0 (evaluate_entries uuid now context entries step.1).0)

  evaluate-AllDone :
      (uuid : ℕ → String) (now : ℕ) (entries : List Entry) (alerts : List Alert)
      → AllDone entries (evaluate_entries uuid now context entries alerts).1
  unfolding evaluate_entries create_alerts_for_intelligence
  evaluate-AllDone uuid now [] alerts = tt
  evaluate-AllDone uuid now (e ∷ entries) alerts =
      let cs = alert_candidates e context in
      let step = create_alerts uuid now e cs alerts in
      (
        subst (AllExist e.entry_id cs) (sym (evaluate-append uuid now entries step.1))
            (AllExist-grows e.entry_id cs step.1 _ (create_alerts-AllExist uuid now e cs alerts)),
        evaluate-AllDone uuid now entries step.1,
      )

  evaluate-none :
      (uuid : ℕ → String) (now : ℕ) (entries : List Entry) (alerts : List Alert)
      → AllDone entries alerts
      → evaluate_entries uuid now context entries alerts ≡ ([], alerts)
  unfolding evaluate_entries create_alerts_for_intelligence
  evaluate-none uuid now [] alerts h = refl
  evaluate-none uuid now (e ∷ entries) alerts (p, h) =
      rw (create_alerts-none uuid now e (alert_candidates e context) alerts p)
        (evaluate-none uuid now entries alerts h)

-- The alerts after an evaluation are those before it, unchanged, and behind them those created.
pub evaluate_appends :
    (uuid : ℕ → String) (now : ℕ) (intelligence_id : Option String) (limit : ℕ) (table : List Entry)
    (alerts : List Alert)
    → let (created, alerts') =
        evaluate_and_create_alerts uuid now intelligence_id limit table alerts in
      alerts' ≡ alerts ++ created
unfolding evaluate_and_create_alerts
evaluate_appends uuid now intelligence_id limit table alerts =
    let entries = candidate_entries intelligence_id limit table in
    evaluate-append (context_of limit table entries) uuid now entries alerts

-- An evaluation of the same intelligence a second time, at whatever time, creates no alert.
pub evaluate_again :
    (uuid uuid' : ℕ → String) (now later : ℕ) (intelligence_id : Option String) (limit : ℕ)
    (table : List Entry) (alerts : List Alert)
    → let alerts' = (evaluate_and_create_alerts uuid now intelligence_id limit table alerts).1 in
      evaluate_and_create_alerts uuid' later intelligence_id limit table alerts' ≡ ([], alerts')
unfolding evaluate_and_create_alerts
evaluate_again uuid uuid' now later intelligence_id limit table alerts =
    let entries = candidate_entries intelligence_id limit table in
    let context = context_of limit table entries in
    evaluate-none context uuid' later entries (evaluate_entries uuid now context entries alerts).1
      (evaluate-AllDone context uuid now entries alerts)

-- No two alerts are of one entry and one rule.
abbrev pub OneEach : List Alert → Type 0
OneEach [] = Unit
OneEach (a ∷ rest) = (existing_alert a.intelligence a.rule rest ≡ false) × OneEach rest

and-other : (i j r s : String) → (i == j && r == s) ≡ false → (j == i && s == r) ≡ false
and-other i j r s h = elim (Bool-cases (j == i)) [
  | inl p ↦ elim (Bool-cases (s == r)) [
    | inl q ↦ cc (h, (eq_iff j i).0 p, (eq_iff s r).0 q, beq_refl i, beq_refl r)
    | inr q ↦ rw (p, q) refl
  ]
  | inr p ↦ rw p refl
]

OneEach-append :
    (alerts : List Alert) (new : Alert)
    → OneEach alerts
    → existing_alert new.intelligence new.rule alerts ≡ false
    → OneEach (alerts ++ (new ∷ []))
unfolding existing_alert
OneEach-append [] new h n = (refl, tt)
OneEach-append (a ∷ alerts) new (p, h) n =
    let (m, n') = or-false (is_alert_of new.intelligence new.rule a) _ n in
    (
      existing-append a.intelligence a.rule alerts (new ∷ [])
          ∙ rw (p, and-other a.intelligence new.intelligence a.rule new.rule m) refl,
      OneEach-append alerts new h n',
    )

created_by-OneEach :
    (uuid : ℕ → String) (now : ℕ) (e : Entry) (c : Candidate) (alerts : List Alert)
    → OneEach alerts
    → OneEach (alerts ++ created_by uuid now e c alerts)
created_by-OneEach uuid now e c alerts h =
    elim (Bool-cases (existing_alert e.entry_id c.rule alerts)) [
      | inl p ↦ rw (p, append-nil alerts) h
      | inr p ↦ rw p (OneEach-append alerts (new_alert uuid now e c alerts) h p)
    ]

create_alerts-OneEach :
    (uuid : ℕ → String) (now : ℕ) (e : Entry) (cs : List Candidate) (alerts : List Alert)
    → OneEach alerts
    → OneEach (create_alerts uuid now e cs alerts).1
unfolding create_alerts
create_alerts-OneEach uuid now e [] alerts h = h
create_alerts-OneEach uuid now e (c ∷ cs) alerts h =
    create_alerts-OneEach uuid now e cs _ (created_by-OneEach uuid now e c alerts h)

evaluate_entries-OneEach :
    (uuid : ℕ → String) (now : ℕ) (context entries : List Entry) (alerts : List Alert)
    → OneEach alerts
    → OneEach (evaluate_entries uuid now context entries alerts).1
unfolding evaluate_entries create_alerts_for_intelligence
evaluate_entries-OneEach uuid now context [] alerts h = h
evaluate_entries-OneEach uuid now context (e ∷ entries) alerts h =
    evaluate_entries-OneEach uuid now context entries _
      (create_alerts-OneEach uuid now e (alert_candidates e context) alerts h)

-- An evaluation keeps the alerts apart: of one entry and one rule there is at most one, also where
-- two candidates of an entry have the same rule.
pub evaluate-OneEach :
    (uuid : ℕ → String) (now : ℕ) (intelligence_id : Option String) (limit : ℕ) (table : List Entry)
    (alerts : List Alert)
    → OneEach alerts
    → OneEach (evaluate_and_create_alerts uuid now intelligence_id limit table alerts).1
unfolding evaluate_and_create_alerts
evaluate-OneEach uuid now intelligence_id limit table alerts h =
    evaluate_entries-OneEach uuid now _ (candidate_entries intelligence_id limit table) alerts h
