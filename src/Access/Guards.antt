-- ===== src/Access/Guards.antt =====
-- Users, the audit log of backend/app/services/audit.py, and the guards of backend/app/api/deps.py.
pub mod Admitted
use sentinel_drive.Prelude.{
  ℕ, String, Bool, true, false, ◌&&◌, not, Option, none, some, List, [], ◌∷◌, ◌++◌, ◌⊎◌, inl, inr,
  ◌==◌, string_Eq, if◌then◌else◌, find_first,
}
use sentinel_drive.Text.{lower, text_runs}
use sentinel_drive.Sanitize.{size}
use sentinel_drive.Value.{Python, Value, Fields, end, get, text, value_runs}
use sentinel_drive.Access.Tokens.{
  Crypto, TokenFailure, invalid_token, expired_token, type_error, attribute_error,
  decode_access_token, split_token, strip_padding, padding, encode, decode, signature, loaded,
  checked_claims, checked_value, checked_token,
}

pub record User : Type 0 where
  pub id : String
  pub email : String
  pub password_hash : String
  pub display_name : Option String
  pub is_active : Bool
  pub is_admin : Bool
  pub last_login_at : Option ℕ
  pub created_at : ℕ

pub data AuditAction : Type 0 where
  login_success login_failure logged_out manual_entry status_change user_change : AuditAction
  alert_closure : AuditAction

-- `AuditEvent`; `None` for a state is the value None.
pub record AuditEvent : Type 0 where
  pub action : AuditAction
  pub entity_type : String
  pub summary : String
  pub actor_user_id : Option String
  pub entity_id : Option String
  pub before : Value
  pub after : Value
  pub metadata : Fields

-- The new event stands at the end of the log.
unfoldable pub record_audit_event : AuditEvent → List AuditEvent → List AuditEvent
record_audit_event event events = events ++ (event ∷ [])

-- The answers that are no success: their codes, and an exception that no handler names.
pub data HttpError : Type 0 where
  alert_not_found intelligence_not_found invalid_intelligence_id : HttpError
  unauthorized forbidden invalid_credentials user_exists user_not_found : HttpError
  server_error : HttpError

-- What the guards use: the secret, the time, and `UUID(text)` as the text of the identifier.
pub record Gate : Type 0 where
  pub crypto : Crypto
  pub secret : String
  pub now : ℕ
  pub uuid_of : String → Option String

unfoldable pub user_with_id : String → List User → Option User
user_with_id id = find_first (λ u. u.id == id)

unfoldable pub active_user : Option User → HttpError ⊎ User
active_user none = inl unauthorized
active_user (some user) = if user.is_active then inr user else inl unauthorized

unfoldable pub user_of_id : List User → Option String → HttpError ⊎ User
unfolding user_with_id active_user
user_of_id users none = inl unauthorized
user_of_id users (some id) = active_user (user_with_id id users)

module _ (P : Python) (G : Gate) where
  -- The handlers name `TokenError` and `TypeError`.
  unfoldable pub user_of_claims : List User → TokenFailure ⊎ Fields → HttpError ⊎ User
  unfolding user_of_id
  user_of_claims users (inl attribute_error) = inl server_error
  user_of_claims users (inl _) = inl unauthorized
  user_of_claims users (inr payload) = user_of_id users (G.uuid_of (text P (get payload "sub")))

  unfoldable pub get_current_user : List User → Option (String × String) → HttpError ⊎ User
  unfolding user_of_claims
  get_current_user users none = inl unauthorized
  get_current_user users (some (scheme, credentials)) =
      if not (lower scheme == "bearer")
      then inl unauthorized
      else user_of_claims users (decode_access_token G.crypto G.secret G.now credentials)

  abbrev pub some_user : HttpError ⊎ User → HttpError ⊎ Option User
  some_user (inl e) = inl e
  some_user (inr user) = inr (some user)

  -- A guest has no credentials.
  unfoldable pub get_optional_current_user :
      List User → Option (String × String) → HttpError ⊎ Option User
  unfolding user_of_claims
  get_optional_current_user users none = inr none
  get_optional_current_user users (some (scheme, credentials)) =
      if not (lower scheme == "bearer")
      then inl unauthorized
      else some_user
          (user_of_claims users (decode_access_token G.crypto G.secret G.now credentials))

  unfoldable pub admin_only : HttpError ⊎ User → HttpError ⊎ User
  admin_only (inl e) = inl e
  admin_only (inr user) = if user.is_admin then inr user else inl forbidden

  unfoldable pub require_admin_user : List User → Option (String × String) → HttpError ⊎ User
  unfolding admin_only get_current_user
  require_admin_user users credentials = admin_only (get_current_user users credentials)

-- Named on the `unfolding` line of a test that runs the guards.
unfoldable pub guard_runs : Unit {0}
unfolding text_runs value_runs size find_first split_token strip_padding padding encode decode
    signature loaded checked_claims checked_value checked_token decode_access_token user_with_id
    active_user user_of_id user_of_claims get_current_user get_optional_current_user admin_only
    require_admin_user
guard_runs = tt
