-- ===== src/Access/Guards/Admitted.antt =====
-- Whom the guards of backend/app/api/deps.py let in.
use sentinel_drive.Prelude.{
  String, Bool, true, false, Option, none, some, List, ◌≡◌, refl, ◌⊎◌, inl, inr, ◌==◌, string_Eq,
  if◌then◌else◌, find_first, find_first-fits, Bool-cases,
}
use mathlib.Core.Path.{ap, subst, sym}
use sentinel_drive.Text.{lower}
use sentinel_drive.Value.{Python, Fields, get, text}
use sentinel_drive.Access.Tokens.{
  TokenFailure, invalid_token, expired_token, type_error, attribute_error, decode_access_token,
}
use sentinel_drive.Access.Tokens.Sound.{IsAccepted, decode-IsAccepted}
use sentinel_drive.Access.Guards.{
  User, Gate, HttpError, unauthorized, forbidden, user_with_id, active_user, user_of_id,
  user_of_claims, get_current_user, some_user, get_optional_current_user, admin_only,
  require_admin_user,
}

-- A user is let in by a bearer token that was signed with the secret and has not expired: its
-- subject is the identifier of the user, who is in the table and active.
pub record IsAdmitted (P : Python) (G : Gate) (users : List User)
    (credentials : Option (String × String)) (user : User) : Type 0 where
  pub scheme : String
  pub token : String
  pub given : credentials ≡ some (scheme, token)
  pub is_bearer : (lower scheme == "bearer") ≡ true
  pub payload : Fields
  pub accepted : IsAccepted G.crypto G.secret G.now token payload
  pub names : G.uuid_of (text P (get payload "sub")) ≡ some user.id
  pub in_table : find_first (λ u. u.id == user.id) users ≡ some user
  pub active : user.is_active ≡ true

-- A test that lets a user in.
let_in :
    (test : Bool) (e : HttpError) (u user : User)
    → ◌≡◌ {A = HttpError ⊎ User} (if test then inr u else inl e) (inr user)
    → (test ≡ true) × (u ≡ user)
let_in true e u user h = (refl, cc)
let_in false e u user h = cc

active_user-inv :
    (o : Option User) (user : User)
    → active_user o ≡ inr user
    → (o ≡ some user) × (user.is_active ≡ true)
unfolding active_user
active_user-inv none user h = cc
active_user-inv (some u) user h =
    let (active, same) = let_in u.is_active unauthorized u user h in
    (ap some same, subst (λ (v : User). v.is_active ≡ true) same active)

user_of_id-inv :
    (users : List User) (o : Option String) (user : User)
    → user_of_id users o ≡ inr user
    → (o ≡ some user.id)
      × (find_first (λ u. u.id == user.id) users ≡ some user)
      × (user.is_active ≡ true)
unfolding user_of_id user_with_id
user_of_id-inv users none user h = cc
user_of_id-inv users (some id) user h =
    let (found, active) = active_user-inv (user_with_id id users) user h in
    let same =
      (string_Eq.equal_iff user.id id).0 (find_first-fits (λ u. u.id == id) users user found) in
    (
      ap some (sym same),
      subst (λ i. find_first (λ u. u.id == i) users ≡ some user) (sym same) found,
      active,
    )

module _ (P : Python) (G : Gate) where
  claims-inv :
      (users : List User) (r : TokenFailure ⊎ Fields) (user : User)
      → user_of_claims P G users r ≡ inr user
      → (payload : Fields) × (r ≡ inr payload)
        × (user_of_id users (G.uuid_of (text P (get payload "sub"))) ≡ inr user)
  unfolding user_of_claims
  claims-inv users (inl attribute_error) user h = cc
  claims-inv users (inl invalid_token) user h = cc
  claims-inv users (inl expired_token) user h = cc
  claims-inv users (inl type_error) user h = cc
  claims-inv users (inr payload) user h = (payload, refl, h)

  -- Whoever passes the guard is admitted by a token of theirs.
  pub get_current_user-IsAdmitted :
      (users : List User) (credentials : Option (String × String)) (user : User)
      → get_current_user P G users credentials ≡ inr user
      → IsAdmitted P G users credentials user
  unfolding get_current_user
  get_current_user-IsAdmitted users none user h = cc
  get_current_user-IsAdmitted users (some (scheme, token)) user h =
      elim (Bool-cases (lower scheme == "bearer")) [
        | inl e ↦
            let (payload, decoded, found) =
              claims-inv users (decode_access_token G.crypto G.secret G.now token) user
                (rw e at h) in
            let (names, there, active) =
              user_of_id-inv users (G.uuid_of (text P (get payload "sub"))) user found in
            record {
              scheme = scheme;
              token = token;
              given = refl;
              is_bearer = e;
              payload = payload;
              accepted = decode-IsAccepted G.crypto G.secret G.now token payload decoded;
              names = names;
              in_table = there;
              active = active;
            }
        | inr e ↦ cc (rw e at h)
      ]

  admin_only-inv :
      (r : HttpError ⊎ User) (user : User)
      → admin_only P G r ≡ inr user
      → (r ≡ inr user) × (user.is_admin ≡ true)
  unfolding admin_only
  admin_only-inv (inl e) user h = cc
  admin_only-inv (inr u) user h =
      let (admin, same) = let_in u.is_admin forbidden u user h in
      (ap inr same, subst (λ (v : User). v.is_admin ≡ true) same admin)

  -- Whoever passes the administrators' guard is an active administrator of the table, with a bearer
  -- token that was signed with the secret, has not expired and names them.
  pub require_admin_user-IsAdmitted :
      (users : List User) (credentials : Option (String × String)) (user : User)
      → require_admin_user P G users credentials ≡ inr user
      → IsAdmitted P G users credentials user × (user.is_admin ≡ true)
  unfolding require_admin_user
  require_admin_user-IsAdmitted users credentials user h =
      let (r, admin) = admin_only-inv (get_current_user P G users credentials) user h in
      (get_current_user-IsAdmitted users credentials user r, admin)

  -- What the optional guard says, from what the other says.
  abbrev pub optional_of : Option (String × String) → HttpError ⊎ User → HttpError ⊎ Option User
  optional_of none r = inr none
  optional_of (some c) r = some_user P G r

  -- With credentials, the optional guard lets in whom the other guard lets in, and refuses in the
  -- same way; without them it lets a guest in.
  pub get_optional_current_user-lem :
      (users : List User) (credentials : Option (String × String))
      → get_optional_current_user P G users credentials
        ≡ (optional_of credentials (get_current_user P G users credentials))
  unfolding get_optional_current_user get_current_user
  get_optional_current_user-lem users none = refl
  get_optional_current_user-lem users (some (scheme, token)) =
      elim (Bool-cases (lower scheme == "bearer")) [ inl e ↦ rw e | inr e ↦ rw e ]
