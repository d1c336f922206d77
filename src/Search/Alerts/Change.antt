-- ===== src/Search/Alerts/Change.antt =====
-- What a change of an alert's status leaves, and what the pages of a listing add up to;
-- backend/app/api/routes/alerts.py.
use mathlib.Core.Path.{subst}
use sentinel_drive.Prelude.{
  String, false, Option, none, some, List, [], ◌∷◌, ◌++◌, ◌⊎◌, inl, inr, ◌==◌, ◌≡◌, refl, sym,
  string_Eq, if◌then◌else◌, find_first-fits, find_first-map_over, find_first-map_other, not_same,
  any_of_found, beq_refl,
}
use sentinel_drive.Value.{Python}
use sentinel_drive.Alerts.Service.{Alert, AlertStatus, opened, acknowledged, closed}
use sentinel_drive.Api.Safety.{Web}
use sentinel_drive.Access.Guards.{
  User, Gate, HttpError, AuditEvent, AuditAction, status_change, alert_closure, record_audit_event,
  get_current_user, alert_not_found,
}
use sentinel_drive.Search.Alerts.{same_status}
use sentinel_drive.Search.Alerts.Status.{
  StatusUpdate, AlertTables, get_alert, write_alert, audit_snapshot, changed_alert, notes_after,
  change_status, guarded_change, update_alert_status,
}

-- The alerts under other identifiers are found as before.
abbrev pub Untouched : String → List Alert → List Alert → Type 0
Untouched id before after =
    (other : String) → (other == id) ≡ false → get_alert other after ≡ get_alert other before

write_alert-Untouched :
    (alert : Alert) (alerts : List Alert)
    → Untouched alert.alert_id alerts (write_alert alert alerts)
unfolding get_alert write_alert
write_alert-Untouched alert alerts other e =
    find_first-map_other (λ a. a.alert_id == other) (λ a. a.alert_id == alert.alert_id) alerts alert
      (not_same other alert.alert_id e)
      (λ a same.
        subst (λ id. (id == other) ≡ false)
          (sym ((string_Eq.equal_iff a.alert_id alert.alert_id).0 same))
          (not_same other alert.alert_id e))

-- The kind of the event that a change is logged as.
abbrev pub action_of : AlertStatus → AuditAction
action_of closed = alert_closure
action_of _ = status_change

-- What a change of the alert under an identifier does.
abbrev pub ChangeOutcome :
    Web
    → HttpError ⊎ User
    → String
    → StatusUpdate
    → AlertTables
    → (HttpError ⊎ Alert) × AlertTables
    → Type 0
ChangeOutcome W guard id u t (inl e, t') =
    (t' ≡ t) × ((guard ≡ inl e) ⊎ ((get_alert id t.alerts ≡ none) × (e ≡ alert_not_found)))
ChangeOutcome W guard id u t (inr alert, t') =
    (old : Alert) × (user : User) × (guard ≡ inr user)
    × (get_alert id t.alerts ≡ some old)
    × (alert ≡ record old { status = u.status; notes = notes_after u.notes old.notes })
    × (get_alert id t'.alerts ≡ some alert)
    × Untouched id t.alerts t'.alerts
    × ((event : AuditEvent) × (t'.events ≡ t.events ++ event ∷ [])
        × (event.actor_user_id ≡ some user.id)
        × (event.action ≡ action_of u.status)
        × (event.before ≡ audit_snapshot W old)
        × (event.after ≡ audit_snapshot W alert))

action_agrees :
    (s : AlertStatus)
    → (if same_status s closed then alert_closure else status_change) ≡ action_of s
action_agrees opened = refl
action_agrees acknowledged = refl
action_agrees closed = refl

module _ (W : Web) (id : String) (u : StatusUpdate) (t : AlertTables) where
  written :
      (old : Alert)
      → get_alert id t.alerts ≡ some old
      → get_alert old.alert_id (write_alert (changed_alert u old) t.alerts)
        ≡ some (changed_alert u old)
  unfolding get_alert write_alert
  written old h =
      find_first-map_over (λ a. a.alert_id == old.alert_id) t.alerts (changed_alert u old)
        (any_of_found (λ a. a.alert_id == id) (λ a. a.alert_id == old.alert_id) t.alerts old h
          (beq_refl old.alert_id))
        (beq_refl old.alert_id)

  same_id : (old : Alert) → get_alert id t.alerts ≡ some old → old.alert_id ≡ id
  unfolding get_alert
  same_id old h =
      (string_Eq.equal_iff old.alert_id id).0
        (find_first-fits (λ a. a.alert_id == id) t.alerts old h)

  change_status-Outcome :
      (user : User) (found : Option Alert)
      → get_alert id t.alerts ≡ found
      → ChangeOutcome W (inr user) id u t (change_status W user u t found)
  unfolding change_status record_audit_event
  change_status-Outcome user none f = (refl, inr (f, refl))
  change_status-Outcome user (some old) f =
      let same = same_id old f in
      (
        old,
        user,
        refl,
        f,
        refl,
        subst
            (λ i.
              get_alert i (write_alert (changed_alert u old) t.alerts) ≡ some (changed_alert u old))
            same (written old f),
        subst (λ i. Untouched i t.alerts (write_alert (changed_alert u old) t.alerts)) same
            (write_alert-Untouched (changed_alert u old) t.alerts),
        (_, refl, refl, action_agrees u.status, refl, refl),
      )

  guarded-Outcome :
      (r : HttpError ⊎ User)
      → ChangeOutcome W r id u t
          (guarded_change r t (λ user. change_status W user u t (get_alert id t.alerts)))
  guarded-Outcome (inl e) = (refl, inl refl)
  guarded-Outcome (inr user) = change_status-Outcome user (get_alert id t.alerts) refl

  -- A change of an alert's status that fails changes nothing, and fails only where the guard does or
  -- for want of an alert. Else the alert has the new status, and the new notes if any were sent; the
  -- other alerts are as they were; and the log has one more event, by the user, with the alert before
  -- and after, as a closure exactly where the new status is closed.
  pub update_alert_status-Outcome :
      (P : Python) (G : Gate) (users : List User) (credentials : Option (String × String))
      → ChangeOutcome W
          (get_current_user P G users credentials)
          id
          u
          t
          (update_alert_status P W G users credentials id u t)
  unfolding update_alert_status
  update_alert_status-Outcome P G users credentials =
      guarded-Outcome (get_current_user P G users credentials)
