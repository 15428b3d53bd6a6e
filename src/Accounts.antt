-- ===== src/Accounts.antt =====
-- app/api/users.py: the management of users. `strip_lower` stands for `.strip().lower()`, `hash_password`
-- for the function of app/core/security.py, which takes no null. A handler that raises writes nothing: its
-- transaction is rolled back. The lengths that pydantic checks are not modelled, and the list of users
-- is only read.
pub mod Admins
use telemetry_backend.Prelude.{
  ℕ, ◌+◌, String, Bool, true, false, not, ◌&&◌, ◌||◌, Option, none, some, List, [], ◌∷◌, ◌++◌,
  string_eq, ◌==◌, if◌then◌else◌, find, is_none, count_if, leb,
}
use telemetry_backend.Prelude.Dict
use telemetry_backend.Prelude.Dict.{Dict}
use telemetry_backend.Metrics.{Metrics}
use telemetry_backend.Api.{Reply, replied, http_error, unhandled, AuditLog, add_audit_log}

pub record User : Type 0 where
  pub id : String
  pub email : String
  pub password_hash : String
  pub role : String
  pub is_active : Bool

pub record Directory : Type 0 where
  pub users : Dict String User
  pub audit : List AuditLog
  pub metrics : Metrics

pub record UserCreate : Type 0 where
  pub email : String
  pub password : String
  pub role : String

-- `none` for a field that is not set, `some none` for a field that is set to null
pub record UserUpdate : Type 0 where
  pub role : Option (Option String)
  pub is_active : Option (Option Bool)
  pub password : Option (Option String)

-- VALID_ROLES
abbrev pub is_valid_role : String → Bool
is_valid_role role = (role == "admin") || ((role == "operator") || (role == "viewer"))

abbrev pub audited : String → String → Option String → Directory → Directory
audited actor action resource_id s =
    let (log, m) = add_audit_log actor action "user" resource_id (s.audit, s.metrics) in
    record s { audit = log; metrics = m }

-- the condition of the query for active administrators
abbrev pub is_active_admin : User → Bool
is_active_admin u = (u.role == "admin") && u.is_active

abbrev pub active_admins : Directory → ℕ
active_admins s = count_if is_active_admin (Dict.values s.users)

-- the select of `get_current_user`, for the subject of a valid token
unfoldable pub get_current_user : String → Directory → Reply User
get_current_user subject s = elim (Dict.get subject s.users) [
  | none ↦ http_error 401 "Invalid authentication credentials"
  | some u ↦ if u.is_active then replied u else http_error 401 "Invalid authentication credentials"
]

unfoldable pub require_admin : User → Reply User
require_admin current_user =
    if current_user.role == "admin"
    then replied current_user
    else http_error 403 "Administrator access required"

abbrev pub email_taken : String → Directory → Bool
email_taken email s = not (is_none (find (λ u. u.email == email) (Dict.values s.users)))

-- values["role"] after `validate_role`: unset, an exception, or a role
pub data Role : Type 0 where
  unset null invalid : Role
  valid : String → Role

abbrev pub sets_role : Role → Bool
sets_role unset = false
sets_role _ = true

-- values.get("role") not in (None, "admin")
abbrev pub leaves_admin : Role → Bool
leaves_admin (valid r) = not (r == "admin")
leaves_admin _ = false

-- values.get("is_active") is False
abbrev pub deactivates : Option (Option Bool) → Bool
deactivates (some (some false)) = true
deactivates _ = false

abbrev removing_admin_access : User → Role → UserUpdate → Bool
removing_admin_access user role payload =
    is_active_admin user && (deactivates payload.is_active || leaves_admin role)

-- the refusals between the checks of the fields and the writes
unfoldable pub refused : String → User → Role → UserUpdate → Directory → Option String
refused current_id user role payload s =
    if (user.id == current_id) && sets_role role
    then some "You cannot change your own role"
    else if (user.id == current_id) && deactivates payload.is_active
    then some "You cannot deactivate your own account"
    else if removing_admin_access user role payload && leb (active_admins s) 1
    then some "At least one active administrator account must remain"
    else none

abbrev role_after : User → Role → String
role_after user (valid r) = r
role_after user _ = user.role

abbrev active_after : User → Option (Option Bool) → Bool
active_after user (some (some b)) = b
active_after user _ = user.is_active

abbrev is_null {ℓ} : {A : Type ℓ} → Option (Option A) → Bool
is_null (some none) = true
is_null _ = false

module _ (strip_lower : String → String) (hash_password : String → String) where
  -- `none` stands for the HTTPException
  unfoldable pub validate_role : String → Option String
  validate_role role = if is_valid_role (strip_lower role) then some (strip_lower role) else none

  -- `id` is the default of the column, which the row has only when it is inserted: the audit log has
  -- none. A primary key that exists is refused by the database.
  unfoldable pub create_user : String → String → UserCreate → Directory → Reply User × Directory
  unfolding validate_role
  create_user id actor payload s =
      let email = strip_lower payload.email in
      if email == ""
      then (http_error 422 "Email must not be blank", s)
      else if email_taken email s
      then (http_error 409 "User already exists", s)
      else elim (validate_role payload.role) [
        | none ↦ (http_error 422 "Role must be one of: admin, operator, viewer", s)
        | some role ↦
            let user : User = record {
              id = id;
              email = email;
              password_hash = hash_password payload.password;
              role = role;
              is_active = true;
            } in
            if not (is_none (Dict.get id s.users)) then (unhandled "IntegrityError", s) else (
              replied user,
              audited actor "user.created" none (record s { users = Dict.put id user s.users }),
            )
      ]

  unfoldable pub role_of : Option (Option String) → Role
  unfolding validate_role
  role_of none = unset
  role_of (some none) = null
  role_of (some (some role)) = elim (validate_role role) [ none ↦ invalid | some r ↦ valid r ]

  abbrev hash_after : User → Option (Option String) → String
  hash_after user (some (some password)) = hash_password password
  hash_after user _ = user.password_hash

  unfoldable pub updated : User → Role → UserUpdate → User
  updated user role payload = record user {
    password_hash = hash_after user payload.password;
    role = role_after user role;
    is_active = active_after user payload.is_active;
  }

  -- after the role was validated
  unfoldable pub apply_update :
      String → String → User → Role → UserUpdate → Directory → Reply User × Directory
  unfolding refused updated
  apply_update current_id user_id user role payload s =
      if is_null payload.password
      then (unhandled "hash_password", s)
      else elim (refused current_id user role payload s) [
        | some detail ↦ (http_error 400 detail, s)
        | none ↦
            if is_null payload.is_active
            then (unhandled "IntegrityError", s)
            else let changed = updated user role payload in
              (
                replied changed,
                audited current_id "user.updated" (some user.id)
                    (record s { users = Dict.put user_id changed s.users }),
              )
      ]

  unfoldable pub update_user : String → String → UserUpdate → Directory → Reply User × Directory
  unfolding role_of apply_update
  update_user current_id user_id payload s = elim (Dict.get user_id s.users) [
    | none ↦ (http_error 404 "User not found", s)
    | some user ↦ elim (role_of payload.role) [
      | null ↦ (unhandled "AttributeError", s)
      | invalid ↦ (http_error 422 "Role must be one of: admin, operator, viewer", s)
      | role ↦ apply_update current_id user_id user role payload s
    ]
  ]
