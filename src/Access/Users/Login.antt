-- ===== src/Access/Users/Login.antt =====
-- What a login leaves, backend/app/api/routes/auth.py, and what its token opens.
use mathlib.Core.Path.{subst}
use sentinel_drive.Prelude.{
  ℕ, String, Bool, true, false, ◌&&◌, Option, none, some, [], ◌∷◌, ◌++◌, ◌⊎◌, inl, inr, ◌==◌, ◌≡◌,
  refl, ◌∙◌, sym, ap, string_Eq, if◌then◌else◌, All, Bool-cases, ltb, ◌+◌, beq_refl, any_of_found,
  All-found, find_first-fits, find_first-map_over,
}
use sentinel_drive.Text.{lower, text_runs}
use sentinel_drive.Value.{Python, Fields, get, text, value_runs}
use sentinel_drive.Access.Tokens.{create_access_token, seconds, token_ttl, claims}
use sentinel_drive.Access.Tokens.RoundTrip.{CryptoLaws, decode-create}
use sentinel_drive.Access.Guards.{
  User, Gate, HttpError, AuditEvent, record_audit_event, user_with_id, user_of_id, user_of_claims,
  get_current_user, unauthorized, login_success, login_failure, invalid_credentials,
}
use sentinel_drive.Access.Users.{
  Database, Passwords, may_log_in, refused_login, logged_in, login_as, login, user_with_email,
  write_user,
}

and_left : (a b : Bool) → (a && b) ≡ true → a ≡ true
and_left true b h = refl
and_left false b h = cc

-- The user with the time of the login.
abbrev stamped : Gate → User → User
stamped G user = record user { last_login_at = some G.now }

-- What a login does: with a token it was allowed, and stamps the user; else it leaves the users as
-- they were and gives no token. It appends one event, which names the outcome.
abbrev pub LoginOutcome :
    Passwords → Gate → Database → String → String → (HttpError ⊎ String) × Database → Type 0
LoginOutcome H G db email password (inl e, db') =
    (may_log_in H password (user_with_email (lower email) db.users) ≡ false)
    × (e ≡ invalid_credentials)
    × (db'.users ≡ db.users)
    × ((event : AuditEvent) × (db'.events ≡ db.events ++ event ∷ [])
        × (event.action ≡ login_failure))
LoginOutcome H G db email password (inr token, db') =
    (may_log_in H password (user_with_email (lower email) db.users) ≡ true)
    × ((user : User) × (user_with_email (lower email) db.users ≡ some user)
        × (db'.users ≡ write_user (record user { last_login_at = some G.now }) db.users)
        × (token ≡ create_access_token G.crypto G.secret user.id user.email user.is_admin G.now))
    × ((event : AuditEvent) × (db'.events ≡ db.events ++ event ∷ [])
        × (event.action ≡ login_success))

module _ (H : Passwords) (G : Gate) (db : Database) (email password : String)
    (client : Option String) where
  login_as-Outcome :
      (found : Option User)
      → user_with_email (lower email) db.users ≡ found
      → LoginOutcome H G db email password (login_as H G db (lower email) password client found)
  unfolding login_as refused_login logged_in record_audit_event
  login_as-Outcome none e = (ap (may_log_in H password) e, refl, refl, (_, refl, refl))
  login_as-Outcome (some user) e = elim (Bool-cases (may_log_in H password (some user))) [
    | inl m ↦ rw m (ap (may_log_in H password) e ∙ m, (user, e, refl, refl), (_, refl, refl))
    | inr m ↦ rw m (ap (may_log_in H password) e ∙ m, refl, refl, (_, refl, refl))
  ]

  pub login-Outcome : LoginOutcome H G db email password (login H G db email password client)
  unfolding login
  login-Outcome = login_as-Outcome (user_with_email (lower email) db.users) refl

  user_by_id :
      (user : User)
      → user_with_email (lower email) db.users ≡ some user
      → user_with_id user.id (write_user (stamped G user) db.users) ≡ some (stamped G user)
  unfolding user_with_email user_with_id write_user
  user_by_id user h =
      find_first-map_over (λ u. u.id == user.id) db.users (stamped G user)
        (any_of_found (λ u. u.email == lower email) (λ u. u.id == user.id) db.users user h
          (beq_refl user.id))
        (beq_refl user.id)

  text_of_subject :
      (P : Python) (user : User) (fs : Fields)
      → ((k : String) → get fs k ≡ get (claims user.id user.email user.is_admin G.now) k)
      → text P (get fs "sub") ≡ user.id
  unfolding value_runs
  text_of_subject P user fs h = ap (text P) (h "sub")

  may_log_in-active :
      (user : User) → may_log_in H password (some user) ≡ true → user.is_active ≡ true
  may_log_in-active user h = and_left user.is_active _ h

  token_admits :
      (P : Python) (L : CryptoLaws G.crypto) (later : ℕ) (user : User)
      → user_with_email (lower email) db.users ≡ some user
      → may_log_in H password (some user) ≡ true
      → G.uuid_of user.id ≡ some user.id
      → ltb (seconds (G.now + token_ttl)) (seconds later) ≡ false
      → get_current_user P
          (record G { now = later })
          (write_user (stamped G user) db.users)
          (some (
            "Bearer",
            create_access_token G.crypto G.secret user.id user.email user.is_admin G.now,
          ))
        ≡ inr (stamped G user)
  unfolding get_current_user user_of_claims user_of_id text_runs
  token_admits P L later user found allowed reads unexpired =
      let (fs, same, decoded) =
        decode-create G.crypto L G.secret user.id user.email user.is_admin G.now later in
      rw (decoded, unexpired)
        (rw (text_of_subject P user fs same, reads, user_by_id user found)
          (ap (λ b. if b then inr (stamped G user) else inl unauthorized)
            (may_log_in-active user allowed)))

  address :
      (user : User) → user_with_email (lower email) db.users ≡ some user → user.email ≡ lower email
  unfolding user_with_email
  address user h =
      (string_Eq.equal_iff user.email (lower email)).0
        (find_first-fits (λ u. u.email == lower email) db.users user h)

  -- The guard admits the user who logged in, as the table has them now.
  abbrev Admits : Python → ℕ → String → Database → Type 0
  Admits P later token db' =
      (user : User) × (get_current_user P (record G { now = later }) db'.users
          (some ("Bearer", token))
        ≡ inr user)
      × (user.email ≡ lower email)
      × (user.last_login_at ≡ some G.now)

  outcome-Admits :
      (P : Python) (L : CryptoLaws G.crypto) (later : ℕ) (token : String) (db' : Database)
      → All (λ u. G.uuid_of u.id ≡ some u.id) db.users
      → ltb (seconds (G.now + token_ttl)) (seconds later) ≡ false
      → LoginOutcome H G db email password (inr token, db')
      → Admits P later token db'
  unfolding user_with_email
  outcome-Admits P L later token db' reads unexpired (allowed, (user, found, users, made), logged) =
      (
        stamped G user,
        rw (users, made)
            (token_admits P L later user found (sym (ap (may_log_in H password) found) ∙ allowed)
              (All-found (λ u. G.uuid_of u.id ≡ some u.id) (λ u. u.email == lower email) db.users
                user reads found)
              unexpired),
        address user found,
        refl,
      )

  -- Where the identifiers of the users are read back from their texts, and base64 and JSON keep what
  -- is promised of them, the token of a login opens the backend as a bearer token for eight hours: the
  -- guard admits a user with the address of the login and its time as that of the last one.
  pub login-admits :
      (P : Python) (L : CryptoLaws G.crypto) (later : ℕ) (token : String) (db' : Database)
      → All (λ u. G.uuid_of u.id ≡ some u.id) db.users
      → ltb (seconds (G.now + token_ttl)) (seconds later) ≡ false
      → login H G db email password client ≡ (inr token, db')
      → (user : User) × (get_current_user P
            (record G { now = later })
            db'.users
            (some ("Bearer", token))
          ≡ inr user)
        × (user.email ≡ lower email)
        × (user.last_login_at ≡ some G.now)
  login-admits P L later token db' reads unexpired h =
      outcome-Admits P L later token db' reads unexpired
        (subst (LoginOutcome H G db email password) h login-Outcome)
