-- ===== src/Profile.antt =====
-- The accounts' own routes: `UpdateUserUseCase` of backend/application/users/use_cases.py,
-- `UserService.update`, and the GET, PUT and DELETE handlers of backend/app/api/v1/users/router.py.
pub mod Fields
pub mod Routes
pub mod Privileges
pub mod Pages
use enterprise_fast_api_boil.Base.{
  ℕ, zero, suc, ◌+◌, ◌-◌, ◌/◌, String, Bool, true, false, not, ◌&&◌, ◌||◌, Option, none, some, List,
  [], ◌∷◌, ◌++◌, select, any, is_some, ◌==◌, ◌=s◌, if◌then◌else◌,
}
use enterprise_fast_api_boil.Base.Outcome.{
  Error, domain, duplicate, forbidden, not_found, integrity, value_error, Outcome, ok, err, Exec,
  pure, raise, gets, raise_if, or_raise, as_http, ◌>>=◌, ◌>>◌,
}
use enterprise_fast_api_boil.Database.{User, Subscription, Db}
use enterprise_fast_api_boil.Server.{Server, log}
use enterprise_fast_api_boil.Users.{
  get_by_id, get_by_email, get_by_username, save_user, list_users, count_users, delete_user_row,
}
use enterprise_fast_api_boil.Users.Public.{UserOut, to_public}
use enterprise_fast_api_boil.Tokens.Redis.{Redis}
use enterprise_fast_api_boil.Tokens.Store.{Cache, Memory, revoke_all_for_user}
use enterprise_fast_api_boil.Rbac.Queries.{Actor}
use enterprise_fast_api_boil.Admin.{require_role, admin_only}
use enterprise_fast_api_boil.Auth.{Auth, on_server, session_prefix}
use enterprise_fast_api_boil.Profile.Fields.{
  Field, unset, null, given, UserUpdate, has_null, is_empty, own_fields, with_fields, wanted,
}

-- A unique column of another row, deleted rows included.
abbrev pub clashes : ℕ → User → User → Bool
clashes i new u = not (u.id == i) && (u.email =s new.email || u.username =s new.username)

-- `setattr` for the other fields, and the flush. A null in a column that takes none, and an
-- address or a name of another row, break a constraint of the table.
abbrev pub set_fields : ℕ → User → UserUpdate → Exec Server (Unit {0})
set_fields now user payload = do
  raise_if (has_null payload) integrity
  taken ← gets (λ s. any (clashes user.id (with_fields now payload user)) s.work.users)
  raise_if taken integrity
  save_user user.id (with_fields now payload)

abbrev pub ensure_email_free : Option String → Exec Server (Unit {0})
ensure_email_free none = pure tt
ensure_email_free (some email) = do
  found ← get_by_email email
  raise_if (is_some found) (domain (duplicate "Email already registered"))

abbrev pub ensure_username_free : Option String → Exec Server (Unit {0})
ensure_username_free none = pure tt
ensure_username_free (some username) = do
  found ← get_by_username username
  raise_if (is_some found) (domain (duplicate "Username already taken"))

-- The session and the token stores, and the dictionary of `_session_revocation_store`, which is
-- an object of its own beside the store of the sessions.
pub record Desk (R : Redis) : Type 0 where
  pub auth : Auth R
  pub own : Memory

module _ (R : Redis) where
  module _ {A : Type 0} where
    abbrev pub in_session : Exec Server A → Exec (Desk R) A
    in_session m d = let (r, a) = on_server R m d.auth in (r, record d { auth = a })

    abbrev pub on_own : Exec (Cache R) A → Exec (Desk R) A
    on_own m d =
        let (r, c) = m (record d.auth.tokens { memory = d.own }) in
        (
          r,
          record d {
            auth = record d.auth { tokens = record c { memory = d.auth.tokens.memory } };
            own = c.memory;
          },
        )

  module _ (hash_password : String → String) where
    -- The new hash, and the end of the refresh tokens.
    abbrev pub change_password : User → String → Exec (Desk R) (Unit {0})
    change_password user password = if password =s "" then pure tt else (do
      in_session (save_user user.id (λ u. record u { hashed_password = hash_password password }))
      on_own (revoke_all_for_user R session_prefix user.id))

    abbrev pub set_password : User → Field String → Exec (Desk R) (Unit {0})
    set_password user unset = pure tt
    set_password user null = pure tt
    set_password user (given password) = change_password user password

    -- `UserService.update`, and `to_public` of the row, which takes no null for the permissions.
    unfoldable pub update_row : ℕ → User → UserUpdate → Exec (Desk R) UserOut
    update_row now user payload = do
      set_password user payload.password
      in_session (set_fields now user payload)
      elim payload.permissions [
        | null ↦ raise (value_error "permissions")
        | _ ↦ pure (to_public (with_fields now payload user))
      ]

    -- What is left of a payload for somebody who is not a superuser.
    unfoldable pub update_own : ℕ → User → UserUpdate → Exec (Desk R) UserOut
    unfolding update_row
    update_own now user payload =
        if is_empty (own_fields payload)
        then pure (to_public user)
        else update_row now user (own_fields payload)

    abbrev pub update_found : ℕ → Actor → UserUpdate → User → Exec (Desk R) UserOut
    update_found now actor payload user = do
      raise_if (not (user.id == actor.id) && not actor.is_superuser)
          (domain (forbidden "Not authorized to update this user"))
      in_session (ensure_email_free (wanted payload.email user.email))
      in_session (ensure_username_free (wanted payload.username user.username))
      if actor.is_superuser then update_row now user payload else update_own now user payload

    -- `UpdateUserUseCase.execute`
    unfoldable pub update_profile : ℕ → Actor → ℕ → UserUpdate → Exec (Desk R) UserOut
    unfolding get_by_id
    update_profile now actor user_id payload = do
      found ← in_session (get_by_id user_id)
      user ← or_raise found (domain (not_found "user not found"))
      update_found now actor payload user

    -- PUT /users/{user_id}
    unfoldable pub update_user : ℕ → Actor → ℕ → UserUpdate → Exec (Desk R) UserOut
    unfolding update_profile
    update_user now actor user_id payload = do
      out ← (λ d. let (r, d') = update_profile now actor user_id payload d in (as_http r, d'))
      in_session (log "user.updated")
      pure out
