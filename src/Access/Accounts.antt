-- ===== src/Access/Accounts.antt =====
-- The routes of users, backend/app/api/routes/users.py.
pub mod Status
use Prim.Native.Char.{code}
use Prim.Native.String.{[], ◌∷◌}
use mathlib.Core.List.{[], ◌∷◌}
use sentinel_drive.Prelude.{
  ℕ, String, Bool, true, false, ◌&&◌, ◌||◌, not, Option, none, some, List, ◌++◌, map, ◌⊎◌, inl, inr,
  ◌==◌, string_Eq, nat_Eq, if◌then◌else◌, find_first, leb, sort_by,
}
use sentinel_drive.Text.{lower, strip, has_prefix, is_in, is_empty, text_le}
use sentinel_drive.Value.{
  Python, Value, none_value, str, bool, dict, Fields, end, field, from_items, text_or_none,
}
use sentinel_drive.Sanitize.{size}
use sentinel_drive.Access.Tokens.{create_access_token}
use sentinel_drive.Access.Guards.{
  User, AuditEvent, login_success, login_failure, logged_out, user_change, record_audit_event, Gate,
  HttpError, unauthorized, invalid_credentials, user_exists, user_not_found, user_with_id,
  get_current_user, require_admin_user,
}
use sentinel_drive.Access.Users.{
  Database, Passwords, UserDraft, user_with_email, write_user, guarded,
}

abbrev user_state : User → Value
user_state user = dict (
    from_items (
      ("email", str user.email)
      ∷ ("is_active", bool user.is_active)
      ∷ ("is_admin", bool user.is_admin)
      ∷ []))

abbrev change_event : String → User → User → Value → Value → AuditEvent
change_event summary admin user before after = record {
  action = user_change;
  entity_type = "user";
  summary = summary;
  actor_user_id = some admin.id;
  entity_id = some user.id;
  before = before;
  after = after;
  metadata = end;
}

abbrev pub new_user : Passwords → UserDraft → String → ℕ → User
new_user H d id created_at = record {
  id = id;
  email = lower d.email;
  password_hash = H.hash_password d.password;
  display_name = d.display_name;
  is_active = true;
  is_admin = d.is_admin;
  last_login_at = none;
  created_at = created_at;
}

-- A new row with the identifier and the time that the database gives.
unfoldable pub add_user :
    Passwords
    → User
    → UserDraft
    → String
    → ℕ
    → Database
    → Option User
    → (HttpError ⊎ User) × Database
add_user H admin d id created_at db (some existing) = (inl user_exists, db)
add_user H admin d id created_at db none =
    let user = new_user H d id created_at in
    (
      inr user,
      record {
        users = db.users ++ (user ∷ []);
        events =
            record_audit_event (change_event "User created" admin user none_value (user_state user))
              db.events;
      },
    )

unfoldable pub set_active : User → Bool → Database → Option User → (HttpError ⊎ User) × Database
unfolding write_user
set_active admin is_active db none = (inl user_not_found, db)
set_active admin is_active db (some user) =
    let changed = record user { is_active = is_active } in
    (
      inr changed,
      record {
        users = write_user changed db.users;
        events =
            record_audit_event
              (change_event "User status updated" admin user
                (dict (from_items (("is_active", bool user.is_active) ∷ [])))
                (dict (from_items (("is_active", bool is_active) ∷ []))))
              db.events;
      },
    )

unfoldable pub create_user :
    Passwords
    → Python
    → Gate
    → Option (String × String)
    → UserDraft
    → String
    → Database
    → (HttpError ⊎ User) × Database
unfolding add_user
create_user H P G credentials d id db =
    guarded (require_admin_user P G db.users credentials) db
      λ admin. add_user H admin d id G.now db (user_with_email (lower d.email) db.users)

unfoldable pub update_user_status :
    Python
    → Gate
    → Option (String × String)
    → String
    → Bool
    → Database
    → (HttpError ⊎ User) × Database
unfolding set_active
update_user_status P G credentials id is_active db =
    guarded (require_admin_user P G db.users credentials) db
      λ admin. set_active admin is_active db (user_with_id id db.users)

-- The order by creation and address.
abbrev pub listed_before : User → User → Bool
listed_before u v =
    if u.created_at == v.created_at then text_le u.email v.email else leb u.created_at v.created_at

abbrev pub listed : Database → HttpError ⊎ User → HttpError ⊎ List User
listed db (inl e) = inl e
listed db (inr admin) = inr (sort_by listed_before db.users)

unfoldable pub list_users :
    Python → Gate → Option (String × String) → Database → HttpError ⊎ List User
list_users P G credentials db = listed db (require_admin_user P G db.users credentials)
