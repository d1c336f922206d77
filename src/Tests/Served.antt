-- ===== src/Tests/Served.antt =====
-- Tokens, users, the guards, and the alerts of the backend.
use sentinel_drive.Prelude.{
  ◌≡◌, refl, ℕ, String, Bool, true, false, none, some, Option, [], ◌∷◌, ◌⊎◌, inl, inr, ◌==◌,
  string_Eq, if◌then◌else◌, find_first, ltb, ◌+◌, pos,
}
use sentinel_drive.Text.{lower, text_runs, is_in}
use sentinel_drive.Value.{Value, Fields, int, str, list, dict, end, field, get, from_list}
use sentinel_drive.Alerts.Entry.{RiskLevel, critical, high}
use sentinel_drive.Alerts.Service.{Alert, opened, closed}
use sentinel_drive.Api.Safety.{safe_metadata}
use sentinel_drive.Api.Safety.Keys.{IsRedacted, safe_metadata-IsRedacted}
use sentinel_drive.Access.Tokens.{
  Crypto, claims, seconds, token_ttl, expired_token, create_access_token, decode_access_token,
}
use sentinel_drive.Access.Tokens.RoundTrip.{decode-create}
use sentinel_drive.Access.Guards.{
  User, Gate, HttpError, get_current_user, require_admin_user, guard_runs,
}
use sentinel_drive.Access.Guards.Admitted.{IsAdmitted, require_admin_user-IsAdmitted}
use sentinel_drive.Access.Users.{
  Database, Passwords, UserDraft, login, login_as, logged_in, user_with_email, write_user,
}
use sentinel_drive.Access.Accounts.{create_user, update_user_status, set_active}
use sentinel_drive.Access.Users.Login.{login-admits}
use sentinel_drive.Access.Accounts.Status.{deactivated-refused, CreateOutcome, create_user-Outcome}
use sentinel_drive.Search.{like_pattern, ilike}
use sentinel_drive.Search.Like.{ilike-like_pattern}
use sentinel_drive.Search.Alerts.{
  AlertSearchParams, by_risk_level, page_by_statement, page_in_memory,
}
use sentinel_drive.Search.Alerts.Status.{AlertTables, update_alert_status}
use sentinel_drive.Search.Alerts.Agree.{pages_agree}
use sentinel_drive.Search.Alerts.Change.{ChangeOutcome, update_alert_status-Outcome}
use sentinel_drive.Tests.Samples.{plain, web_of}
use sentinel_drive.Tests.Codec.{plain_crypto, plain_crypto-CryptoLaws}

decode-create_example :
    (fs : Fields) × ((k : String) → get fs k ≡ get (claims "u1" "a@b.c" true 5000000) k)
    × (decode_access_token plain_crypto "key" 9000000
          (create_access_token plain_crypto "key" "u1" "a@b.c" true 5000000)
        ≡ (if ltb (seconds (5000000 + token_ttl)) 9 then inl expired_token else inr fs))
decode-create_example =
    decode-create plain_crypto plain_crypto-CryptoLaws "key" "u1" "a@b.c" true 5000000 9000000

abbrev user_of : String → String → Bool → User
user_of id email is_admin = record {
  id = id;
  email = email;
  password_hash = "hash";
  display_name = none;
  is_active = true;
  is_admin = is_admin;
  last_login_at = none;
  created_at = 1;
}

abbrev users_db : Database
users_db = record {
  users = user_of "u1" "a@b.c" true ∷ user_of "u2" "d@e.f" false ∷ [];
  events = [];
}

abbrev any_password : Passwords
any_password = record { verify_password = λ p h. true; hash_password = λ p. "hash" }

abbrev gate_of : Crypto → Gate
gate_of C = record { crypto = C; secret = "key"; now = 5000000; uuid_of = some }

abbrev token : String
token = create_access_token plain_crypto "key" "u1" "a@b.c" true 5000000

abbrev after_login : Database
after_login = logged_in (gate_of plain_crypto) users_db none (user_of "u1" "a@b.c" true)

logs_in :
    login any_password (gate_of plain_crypto) users_db "A@b.c" "pw" none ≡ (inr token, after_login)
unfolding text_runs login login_as user_with_email find_first
logs_in = refl

login-admits_example :
    (user : User) × (get_current_user plain
        (record (gate_of plain_crypto) { now = 9000000 })
        after_login.users
        (some ("Bearer", token))
      ≡ inr user)
    × (user.email ≡ lower "A@b.c")
    × (user.last_login_at ≡ some 5000000)
login-admits_example =
    login-admits any_password (gate_of plain_crypto) users_db "A@b.c" "pw" none plain
      plain_crypto-CryptoLaws 9000000 token after_login (refl, (refl, tt)) refl logs_in

-- JSON that is always the claims of the first user.
abbrev one_token : Crypto
one_token = record {
  hmac_sha256 = λ key message. "s";
  b64encode = λ s. s;
  b64decode = some;
  dumps = λ v. "p";
  loads = λ s. some (dict (field "exp" (int (pos 9)) (field "sub" (str "u1") end)));
  is_ascii = λ s. true;
}

abbrev credentials : Option (String × String)
credentials = some ("Bearer", "p.s")

admits_the_first :
    require_admin_user plain (gate_of one_token) users_db.users credentials
    ≡ inr (user_of "u1" "a@b.c" true)
unfolding guard_runs
admits_the_first = refl

require_admin_user-IsAdmitted_example :
    IsAdmitted plain (gate_of one_token) users_db.users credentials (user_of "u1" "a@b.c" true)
    × (true ≡ true)
require_admin_user-IsAdmitted_example =
    require_admin_user-IsAdmitted plain (gate_of one_token) users_db.users credentials
      (user_of "u1" "a@b.c" true) admits_the_first

abbrev deactivated : User
deactivated = record (user_of "u2" "d@e.f" false) { is_active = false }

abbrev status_result : (HttpError ⊎ User) × Database
status_result = update_user_status plain (gate_of one_token) credentials "u2" false users_db

deactivates : status_result ≡ (inr deactivated, status_result.1)
unfolding guard_runs update_user_status set_active write_user
deactivates = refl

still_admits :
    get_current_user plain (gate_of one_token) (status_result.1).users credentials
    ≡ inr (user_of "u1" "a@b.c" true)
unfolding guard_runs update_user_status set_active write_user
still_admits = refl

deactivated-refused_example : ((user_of "u1" "a@b.c" true).id == "u2") ≡ false
deactivated-refused_example =
    deactivated-refused plain (gate_of one_token) "u2" users_db credentials deactivated
      status_result.1 deactivates (gate_of one_token) credentials (user_of "u1" "a@b.c" true)
      still_admits

abbrev draft : UserDraft
draft = record { email = "g@h.i"; password = "secret12"; display_name = none; is_admin = false }

create_user-Outcome_example :
    CreateOutcome any_password plain
      (gate_of one_token)
      draft
      "u3"
      users_db
      (create_user any_password plain (gate_of one_token) credentials draft "u3" users_db)
create_user-Outcome_example =
    create_user-Outcome any_password plain (gate_of one_token) draft "u3" users_db credentials
      (refl, (refl, tt))

abbrev alert_of : String → RiskLevel → ℕ → Alert
alert_of id level at = record {
  alert_id = id;
  title = "Alert";
  intelligence = "e1";
  rule = "critical_risk";
  risk_level = level;
  triggered_at = at;
  status = opened;
  notes = some "token: abc";
  metadata = end;
}

abbrev tables : AlertTables
tables = record { alerts = alert_of "a1" high 3 ∷ alert_of "a2" critical 2 ∷ []; events = [] }

update_alert_status-Outcome_example :
    ChangeOutcome
      (web_of "https")
      (get_current_user plain (gate_of one_token) users_db.users credentials)
      "a2"
      (record { status = closed; notes = some (some "done") })
      tables
      (update_alert_status plain
        (web_of "https")
        (gate_of one_token)
        users_db.users
        credentials
        "a2"
        (record { status = closed; notes = some (some "done") })
        tables)
update_alert_status-Outcome_example =
    update_alert_status-Outcome (web_of "https") "a2"
      (record { status = closed; notes = some (some "done") }) tables plain (gate_of one_token)
      users_db.users credentials

abbrev all_critical : AlertSearchParams
all_critical = record {
  risk_level = none;
  status = some opened;
  triggering_rule = some "L_R";
  intelligence_id = none;
  sort = by_risk_level;
}

pages_agree_example :
    page_by_statement tables.alerts all_critical 1 25
    ≡ page_in_memory tables.alerts all_critical 1 25
pages_agree_example = pages_agree tables.alerts all_critical 1 25

ilike-like_pattern_example :
    ilike "Critical_Risk" (like_pattern "L_R") ≡ is_in (lower "L_R") (lower "Critical_Risk")
ilike-like_pattern_example = ilike-like_pattern "Critical_Risk" "L_R"

abbrev secrets : Value
secrets =
    dict (field "api-key" (str "k") (field "urls" (list (from_list (str "token=abc" ∷ []))) end))

safe_metadata-IsRedacted_example : IsRedacted (safe_metadata (web_of "https") plain secrets)
safe_metadata-IsRedacted_example = safe_metadata-IsRedacted (web_of "https") plain secrets
