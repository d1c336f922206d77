-- ===== src/Access/Accounts/Status.antt =====
-- What the administrators' routes of backend/app/api/routes/users.py leave.
use mathlib.Core.Path.{subst}
use mathlib.Core.List.{map-append}
use sentinel_drive.Prelude.{
  String, true, false, ◌||◌, Option, none, some, List, [], ◌∷◌, ◌++◌, map, ◌⊎◌, inl, inr, ◌==◌, ◌≡◌,
  refl, ◌∙◌, sym, ap, string_Eq, find_first-fits, any_of_find_first, All, All-found, Bool-cases,
  NoRepeats, NoRepeats-snoc, contains, any,
}
use sentinel_drive.Text.{lower}
use sentinel_drive.Value.{Python}
use sentinel_drive.Access.Guards.{
  User, Gate, HttpError, AuditEvent, record_audit_event, user_with_id, get_current_user,
  require_admin_user,
}
use sentinel_drive.Access.Guards.Admitted.{get_current_user-IsAdmitted}
use sentinel_drive.Access.Users.{
  Database, Passwords, UserDraft, user_with_email, write_user, guarded,
}
use sentinel_drive.Access.Accounts.{add_user, set_active, create_user, update_user_status}

-- The rows with an identifier are not active.
abbrev IsOut : String → List User → Type 0
IsOut id = All (λ u. (u.id == id) ≡ true → u.is_active ≡ false)

write_user-IsOut :
    (id : String) (changed : User) (us : List User)
    → changed.id ≡ id
    → changed.is_active ≡ false
    → IsOut id (write_user changed us)
unfolding write_user
write_user-IsOut id changed [] e h = tt
write_user-IsOut id changed (u ∷ us) e h = elim (Bool-cases (u.id == changed.id)) [
  | inl same ↦ rw same (λ _. h, write_user-IsOut id changed us e h)
  | inr differs ↦ rw differs (
    λ same. cc (subst (λ i. (u.id == i) ≡ false) e differs, same),
    write_user-IsOut id changed us e h,
  )
]

module _ (P : Python) (G : Gate) (id : String) (db : Database) where
  set_active-IsOut :
      (admin user : User) (db' : Database) (found : Option User)
      → user_with_id id db.users ≡ found
      → set_active admin false db found ≡ (inr user, db')
      → IsOut id db'.users
  unfolding set_active user_with_id
  set_active-IsOut admin user db' none f h = cc
  set_active-IsOut admin user db' (some u) f h = subst (IsOut id) (ap (λ r. r.1.users) h) (
      write_user-IsOut id (record u { is_active = false }) db.users
        ((string_Eq.equal_iff u.id id).0 (find_first-fits (λ v. v.id == id) db.users u f)) refl)

  guarded-IsOut :
      (r : HttpError ⊎ User) (user : User) (db' : Database)
      → guarded r db (λ admin. set_active admin false db (user_with_id id db.users))
        ≡ (inr user, db')
      → IsOut id db'.users
  guarded-IsOut (inl e) user db' h = cc
  guarded-IsOut (inr admin) user db' h =
      set_active-IsOut admin user db' (user_with_id id db.users) refl h

  -- After a user was deactivated, no credentials whatever pass the guard for them, tokens that were
  -- issued before included.
  pub deactivated-refused :
      (credentials : Option (String × String)) (user : User) (db' : Database)
      → update_user_status P G credentials id false db ≡ (inr user, db')
      → (G' : Gate) (credentials' : Option (String × String)) (let_in : User)
      → get_current_user P G' db'.users credentials' ≡ inr let_in
      → (let_in.id == id) ≡ false
  unfolding update_user_status
  deactivated-refused credentials user db' h G' credentials' let_in passed =
      let out = guarded-IsOut (require_admin_user P G db.users credentials) user db' h in
      let a = get_current_user-IsAdmitted P G' db'.users credentials' let_in passed in
      elim (Bool-cases (let_in.id == id)) [
        | inl same ↦ cc (
          All-found (λ u. (u.id == id) ≡ true → u.is_active ≡ false) (λ u. u.id == let_in.id)
              db'.users let_in out a.in_table same,
          a.active,
        )
        | inr differs ↦ differs
      ]

abbrev pub emails : List User → List String
emails = map (λ u. u.email)

contains-emails :
    (email : String) (us : List User) → contains (emails us) email ≡ any (λ u. u.email == email) us
contains-emails email [] = refl
contains-emails email (u ∷ us) = ap (λ b. u.email == email || b) (contains-emails email us)

module _ (H : Passwords) (P : Python) (G : Gate) (d : UserDraft) (id : String) (db : Database) where
  -- A request that fails changes nothing; one that succeeds leaves the users that were there, then the
  -- new one, and one more event.
  abbrev pub CreateOutcome : (HttpError ⊎ User) × Database → Type 0
  CreateOutcome (inl e, db') = db' ≡ db
  CreateOutcome (inr user, db') =
      (db'.users ≡ db.users ++ user ∷ [])
      × NoRepeats (emails db'.users)
      × ((event : AuditEvent) × (db'.events ≡ db.events ++ event ∷ []))

  add_user-Outcome :
      (admin : User) (found : Option User)
      → user_with_email (lower d.email) db.users ≡ found
      → NoRepeats (emails db.users)
      → CreateOutcome (add_user H admin d id G.now db found)
  unfolding add_user user_with_email record_audit_event
  add_user-Outcome admin (some u) f h = refl
  add_user-Outcome admin none f h = (
    refl,
    subst NoRepeats (sym (map-append (λ (u : User). u.email) db.users _)) (
        NoRepeats-snoc (emails db.users) (lower d.email) h (
          contains-emails (lower d.email) db.users
          ∙ any_of_find_first (λ u. u.email == lower d.email) db.users f)),
    (_, refl),
  )

  guarded-Outcome :
      (r : HttpError ⊎ User)
      → NoRepeats (emails db.users)
      → CreateOutcome (
          guarded r db
            (λ admin. add_user H admin d id G.now db (user_with_email (lower d.email) db.users)))
  guarded-Outcome (inl e) h = refl
  guarded-Outcome (inr admin) h =
      add_user-Outcome admin (user_with_email (lower d.email) db.users) refl h

  -- Where no two users have one address, creating a user fails and changes nothing, or appends the user
  -- and an event, and still no two users have one address.
  pub create_user-Outcome :
      (credentials : Option (String × String))
      → NoRepeats (emails db.users)
      → CreateOutcome (create_user H P G credentials d id db)
  unfolding create_user
  create_user-Outcome credentials = guarded-Outcome (require_admin_user P G db.users credentials)
