-- ===== src/Access/Users.antt =====
-- The routes of backend/app/api/routes/auth.py and users.py with the requests of
-- backend/app/api/schemas/auth.py. What verifies and hashes passwords is a parameter; the session
-- commits before each answer, and rolls back where a handler raises without a commit.
pub mod Login
use Prim.Native.Char.{code}
use Prim.Native.String.{[], ◌∷◌}
use mathlib.Core.List.{[], ◌∷◌}
use sentinel_drive.Prelude.{
  ℕ, String, Bool, true, false, ◌&&◌, ◌||◌, not, Option, none, some, List, ◌++◌, map, ◌⊎◌, inl, inr,
  ◌==◌, string_Eq, nat_Eq, if◌then◌else◌, find_first, leb, sort_by,
}
use sentinel_drive.Text.{lower, strip, has_prefix, is_in, is_empty, text_le}
use sentinel_drive.Value.{
  Python, Value, none_value, str, bool, dict, Fields, end, field, from_items, text_or_none,
}
use sentinel_drive.Sanitize.{size}
use sentinel_drive.Access.Tokens.{create_access_token}
use sentinel_drive.Access.Guards.{
  User, AuditEvent, login_success, login_failure, logged_out, user_change, record_audit_event, Gate,
  HttpError, unauthorized, invalid_credentials, user_exists, user_not_found, user_with_id,
  get_current_user, require_admin_user,
}

-- The tables that the routes read and write.
pub record Database : Type 0 where
  pub users : List User
  pub events : List AuditEvent

pub record Passwords : Type 0 where
  pub verify_password : String → String → Bool
  pub hash_password : String → String

-- `value.endswith("@")`
unfoldable pub ends_with_at : String → Bool
ends_with_at [] = false
ends_with_at (c ∷ []) = code c == b'@'
ends_with_at (c ∷ d ∷ s) = ends_with_at (d ∷ s)

-- `_normalize_email`
unfoldable pub normalize_email : String → Option String
normalize_email value =
    let email = lower (strip value) in
    if is_empty email
      || is_in " " email
      || not (is_in "@" email)
      || has_prefix "@" email
      || ends_with_at email
    then none
    else some email

-- `UserCreateRequest`, with the lengths that it allows.
pub record UserDraft : Type 0 where
  pub email : String
  pub password : String
  pub display_name : Option String
  pub is_admin : Bool

abbrev pub fits_in : ℕ → Option String → Bool
fits_in most none = true
fits_in most (some s) = leb (size s) most

abbrev pub with_email : UserDraft → Option String → Option UserDraft
with_email d none = none
with_email d (some email) = some (record d { email = email })

unfoldable pub valid_user_draft : UserDraft → Option UserDraft
valid_user_draft d =
    if leb 3 (size d.email)
      && leb (size d.email) 320
      && leb 8 (size d.password)
      && leb (size d.password) 128
      && fits_in 120 d.display_name
    then with_email d (normalize_email d.email)
    else none

unfoldable pub user_with_email : String → List User → Option User
user_with_email email = find_first (λ u. u.email == email)

-- The row of the user is written.
unfoldable pub write_user : User → List User → List User
write_user user = map (λ u. if u.id == user.id then user else u)

abbrev pub id_of : Option User → Option String
id_of none = none
id_of (some u) = some u.id

-- Whether the user is there, active, and has the password.
abbrev pub may_log_in : Passwords → String → Option User → Bool
may_log_in H password none = false
may_log_in H password (some user) = user.is_active && H.verify_password password user.password_hash

-- The failure is committed before the handler raises.
unfoldable pub refused_login : Database → String → Option String → Option User → Database
refused_login db email client user = record db {
  events =
      record_audit_event
        (record {
          action = login_failure;
          entity_type = "user";
          summary = "Failed login attempt";
          actor_user_id = none;
          entity_id = id_of user;
          before = none_value;
          after = none_value;
          metadata = from_items (("email", str email) ∷ ("client", text_or_none client) ∷ []);
        })
        db.events;
}

unfoldable pub logged_in : Gate → Database → Option String → User → Database
unfolding write_user
logged_in G db client user = record {
  users = write_user (record user { last_login_at = some G.now }) db.users;
  events =
      record_audit_event
        (record {
          action = login_success;
          entity_type = "user";
          summary = "User logged in";
          actor_user_id = some user.id;
          entity_id = some user.id;
          before = none_value;
          after = none_value;
          metadata = from_items (("client", text_or_none client) ∷ []);
        })
        db.events;
}

unfoldable pub login_as :
    Passwords
    → Gate
    → Database
    → String
    → String
    → Option String
    → Option User
    → (HttpError ⊎ String) × Database
unfolding refused_login logged_in
login_as H G db email password client none =
    (inl invalid_credentials, refused_login db email client none)
login_as H G db email password client (some user) =
    if may_log_in H password (some user)
    then (
      inr (create_access_token G.crypto G.secret user.id user.email user.is_admin G.now),
      logged_in G db client user,
    )
    else (inl invalid_credentials, refused_login db email client (some user))

unfoldable pub login :
    Passwords → Gate → Database → String → String → Option String → (HttpError ⊎ String) × Database
unfolding login_as user_with_email
login H G db email password client =
    let address = lower email in
    login_as H G db address password client (user_with_email address db.users)

-- A handler that the administrators' guard stands before, and one that any user may call.
abbrev pub guarded {ℓ} :
    {A : Type ℓ}
    → HttpError ⊎ User
    → Database
    → (User → (HttpError ⊎ A) × Database)
    → (HttpError ⊎ A) × Database
guarded (inl e) db handler = (inl e, db)
guarded (inr user) db handler = handler user

unfoldable pub logout :
    Python
    → Gate
    → Option (String × String)
    → Option String
    → Database
    → (HttpError ⊎ Unit {0}) × Database
logout P G credentials client db = guarded (get_current_user P G db.users credentials) db λ user. (
  inr tt,
  record db {
    events =
        record_audit_event
          (record {
            action = logged_out;
            entity_type = "user";
            summary = "User logged out";
            actor_user_id = some user.id;
            entity_id = some user.id;
            before = none_value;
            after = none_value;
            metadata = from_items (("client", text_or_none client) ∷ []);
          })
          db.events;
  },
)
