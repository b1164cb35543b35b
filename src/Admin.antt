-- ===== src/Admin.antt =====
-- The administration of users: backend/app/api/v1/admin/router.py.
pub mod Bulk
pub mod LastAdmin
pub mod SetRole
use enterprise_fast_api_boil.Base.{
  ℕ, suc, ◌+◌, String, Bool, true, false, not, ◌&&◌, ◌||◌, Option, none, some, List, [], ◌∷◌, map,
  count, select, contains, ltb, ◌==◌, ◌=s◌, if◌then◌else◌,
}
use enterprise_fast_api_boil.Base.Outcome.{
  Error, http, domain, not_found, Outcome, ok, err, Exec, pure, lift, gets, raise_if, and_then,
  scalar_one_or_none, or_raise, ◌>>=◌, ◌>>◌,
}
use enterprise_fast_api_boil.Database.{User, Role, Db}
use enterprise_fast_api_boil.Server.{Server, Settings, edit, query, log}
use enterprise_fast_api_boil.Users.{is_live, has_id, get_by_id, list_users, save_user}
use enterprise_fast_api_boil.Rbac.Queries.{Actor, ensure_admins_remain}
use enterprise_fast_api_boil.Rbac.Seed.{list_roles}
use enterprise_fast_api_boil.Rbac.Assign.{require_permission}

-- `require_role(*roles)`, after the user is known to be active.
unfoldable pub require_role : Actor → List String → Exec Server (Unit {0})
require_role actor roles =
    raise_if (not actor.is_superuser && not (contains actor.role roles))
      (http 403 "insufficient_permission")

abbrev pub admin_only : List String
admin_only = "admin" ∷ []

-- `User.role == "admin", User.deleted_at.is_(None)`
abbrev pub is_admin : User → Bool
is_admin u = u.role =s "admin" && is_live u

abbrev pub total_admins : Db → ℕ
total_admins db = count is_admin db.users

abbrev pub role_keys_of : List Role → List String
role_keys_of roles = map (λ r. r.key) roles

abbrev pub last_admin : Error
last_admin = http 403 "Cannot remove the last admin role"

-- GET /admin/users, with the defaults of `BaseService.list`
unfoldable pub list_admin_users : Actor → Exec Server (List User)
unfolding require_role list_users
list_admin_users actor = do
  require_role actor admin_only
  users ← list_users 0 100
  log "admin.users.listed"
  pure users

abbrev pub set_role : User → Option String → Exec Server (Unit {0})
set_role user none = pure tt
set_role user (some role) = do
  raise_if (role =s "") (http 422 "invalid role")
  roles ← list_roles
  raise_if (not (contains role (role_keys_of roles))) (http 422 "invalid role")
  total ← gets (λ s. total_admins s.work)
  raise_if (user.role =s "admin" && not (role =s "admin") && total == 1) last_admin
  save_user user.id (λ u. record u { role = role })

abbrev pub set_permissions : User → Option (List String) → Exec Server (Unit {0})
set_permissions user none = pure tt
set_permissions user (some permissions) =
    save_user user.id (λ u. record u { permissions = permissions })

-- PATCH /admin/users/{user_id}/role
unfoldable pub set_user_role :
    Actor → ℕ → Option String → Option (List String) → Exec Server (Unit {0})
unfolding require_role get_by_id
set_user_role actor user_id role permissions = do
  require_role actor admin_only
  found ← get_by_id user_id
  user ← or_raise found (http 404 "user not found")
  set_role user role
  set_permissions user permissions
  log "user.role_changed"

-- PATCH /admin/system/subscriptions-enabled; `none` is a payload without the key.
unfoldable pub toggle_subscriptions_enabled : Actor → Option Bool → Exec Server Bool
unfolding require_permission
toggle_subscriptions_enabled actor value = do
  require_permission actor ("system.billing_toggle" ∷ [])
  elim value [
    | none ↦ pure tt
    | some enabled ↦ do
      (λ s. (ok tt, record s { settings = record s.settings { subscriptions_enabled = enabled } }))
      log "system.subscriptions_toggled"
  ]
  gets (λ s. s.settings.subscriptions_enabled)
