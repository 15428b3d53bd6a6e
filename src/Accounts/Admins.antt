-- ===== src/Accounts/Admins.antt =====
-- An active administrator remains.
use telemetry_backend.Prelude.{
  ◌+◌, ◌≤◌, ◌≡◌, refl, inl, inr, String, Bool, true, false, Option, none, some, List, [], ◌∷◌,
  string_eq, ◌==◌, if◌then◌else◌, count_if, arith, Option-cases, ap,
}
use telemetry_backend.Prelude.Dict
use telemetry_backend.Prelude.Dict.{Dict}
use telemetry_backend.Api.{add_audit_log}
use telemetry_backend.Accounts.{
  User, Directory, UserCreate, UserUpdate, Role, is_active_admin, active_admins, create_user,
  validate_role, role_of, removing_admin_access, refused, updated, apply_update, update_user,
  deactivates, leaves_admin, role_after, active_after,
}

pub data Request : Type 0 where
  create : String → String → UserCreate → Request
  update : String → String → UserUpdate → Request

module _ {V : Type 0} (p : V → Bool) where
  count-put :
      (k : String) (v old : V) (d : Dict String V)
      → Dict.get k d ≡ some old
      → count_if p (Dict.values (Dict.put k v d)) + (if p old then 1 else 0)
        ≡ count_if p (Dict.values d) + (if p v then 1 else 0)
  unfolding Dict.get Dict.put
  count-put k v old [] e = absurd (ground arith)
  count-put k v old ((j, w) ∷ d) e = ground (arith, count-put k v old d, ap p, e)

  count-put_new :
      (k : String) (v : V) (d : Dict String V)
      → Dict.get k d ≡ none
      → count_if p (Dict.values (Dict.put k v d))
        ≡ count_if p (Dict.values d) + (if p v then 1 else 0)
  unfolding Dict.get Dict.put
  count-put_new k v [] e = omega arith
  count-put_new k v ((j, w) ∷ d) e = ground (arith, count-put_new k v d, e)

role_after-admin :
    (user : User) (role : Role)
    → leaves_admin role ≡ false
    → (user.role == "admin") ≡ true
    → (role_after user role == "admin") ≡ true
role_after-admin user Role.unset l a = a
role_after-admin user Role.null l a = a
role_after-admin user Role.invalid l a = a
role_after-admin user (Role.valid r) l a = ground (arith, l)

active_after-true :
    (user : User) (o : Option (Option Bool))
    → deactivates o ≡ false
    → user.is_active ≡ true
    → active_after user o ≡ true
active_after-true user none d a = a
active_after-true user (some none) d a = a
active_after-true user (some (some true)) d a = refl
active_after-true user (some (some false)) d a = absurd (ground arith)

module _ (strip_lower hash_password : String → String) where
  -- who is an active administrator stays one, unless the update removes that
  updated-is_active_admin :
      (user : User) (role : Role) (payload : UserUpdate)
      → removing_admin_access user role payload ≡ false
      → is_active_admin user ≡ true
      → is_active_admin (updated strip_lower hash_password user role payload) ≡ true
  unfolding updated
  updated-is_active_admin user role payload r a =
      ground (arith, r, a, role_after-admin user role, active_after-true user payload.is_active)

  -- a refusal or a null writes nothing, and the last active administrator is not changed
  apply_update-admins :
      (current_id user_id : String) (user : User) (role : Role) (payload : UserUpdate)
      (s : Directory)
      → Dict.get user_id s.users ≡ some user
      → 1 ≤ active_admins s
      → 1
        ≤ active_admins
            (apply_update strip_lower hash_password current_id user_id user role payload s).1
  unfolding apply_update refused add_audit_log
  apply_update-admins current_id user_id user role payload s e h = ground (
    arith,
    h,
    updated-is_active_admin user role payload,
    count-put is_active_admin user_id (updated strip_lower hash_password user role payload) user
        s.users e,
  )

  create_user-admins :
      (id actor : String) (payload : UserCreate) (s : Directory)
      → 1 ≤ active_admins s
      → 1 ≤ active_admins (create_user strip_lower hash_password id actor payload s).1
  unfolding create_user validate_role add_audit_log
  create_user-admins id actor payload s h = ground (
    arith,
    h,
    count-put_new is_active_admin id
        (record {
          id = id;
          email = strip_lower payload.email;
          password_hash = hash_password payload.password;
          role = strip_lower payload.role;
          is_active = true;
        })
        s.users,
  )

  update_user-admins :
      (current_id user_id : String) (payload : UserUpdate) (s : Directory)
      → 1 ≤ active_admins s
      → 1 ≤ active_admins (update_user strip_lower hash_password current_id user_id payload s).1
  unfolding update_user
  update_user-admins current_id user_id payload s h =
      elim (Option-cases (Dict.get user_id s.users)) [
        | inl e ↦ ground (arith, h, e)
        | inr (user, e) ↦ ground (
          arith,
          h,
          e,
          apply_update-admins current_id user_id user
              (role_of strip_lower hash_password payload.role) payload s e,
        )
      ]

  unfoldable pub handle : Request → Directory → Directory
  handle (create id actor payload) s = (create_user strip_lower hash_password id actor payload s).1
  handle (update current_id user_id payload) s =
      (update_user strip_lower hash_password current_id user_id payload s).1

  unfoldable pub handle_all : List Request → Directory → Directory
  unfolding handle
  handle_all [] s = s
  handle_all (r ∷ rs) s = handle_all rs (handle r s)

  -- Through any sequence of requests that create or change users, those that are refused or fail
  -- included, at least one active administrator remains if there is one at the beginning.
  pub handle_all-admins :
      (rs : List Request) (s : Directory)
      → 1 ≤ active_admins s
      → 1 ≤ active_admins (handle_all rs s)
  unfolding handle handle_all
  handle_all-admins [] s h = h
  handle_all-admins (create id actor payload ∷ rs) s h =
      handle_all-admins rs (create_user strip_lower hash_password id actor payload s).1
        (create_user-admins id actor payload s h)
  handle_all-admins (update current_id user_id payload ∷ rs) s h =
      handle_all-admins rs (update_user strip_lower hash_password current_id user_id payload s).1
        (update_user-admins current_id user_id payload s h)
