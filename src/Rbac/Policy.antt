-- ===== src/Rbac/Policy.antt =====
-- `AuthorizationPolicy` and `require_policy` of backend/core/security/rbac.py, the remaining services of
-- backend/domain/rbac/service.py and the remaining routes of backend/app/api/v1/rbac/router.py.
use enterprise_fast_api_boil.Base.{
  String, Bool, true, false, not, ◌&&◌, Option, none, some, List, [], ◌∷◌, all, find, contains,
  ◌=s◌, if◌then◌else◌,
}
use enterprise_fast_api_boil.Base.Outcome.{
  http, Outcome, ok, Exec, pure, gets, raise_if, and_then, ◌>>=◌, ◌>>◌,
}
use enterprise_fast_api_boil.Database.{Role, Permission, Db}
use enterprise_fast_api_boil.Server.{Server, edit, query, commit_now, log}
use enterprise_fast_api_boil.Rbac.Queries.{Actor, user_has_permission}
use enterprise_fast_api_boil.Rbac.Seed.{
  add_permission, ensure_seed_data, create_role, create_permission,
}
use enterprise_fast_api_boil.Rbac.Assign.{require_permission}

pub record AuthorizationPolicy : Type 0 where
  pub required_roles : List String
  pub required_permissions : List String

abbrev is_nonempty : List String → Bool
is_nonempty [] = false
is_nonempty (x ∷ xs) = true

-- The loop over the permissions, which ends at the first that is not held.
unfoldable pub holds_each : Db → Actor → List String → Outcome Bool
holds_each db actor [] = ok true
holds_each db actor (key ∷ keys) =
    let rest = holds_each db actor keys in
    and_then (user_has_permission db actor key) (λ held. if held then rest else ok false)

abbrev pub allowed_permissions : AuthorizationPolicy → Actor → Option Db → Outcome Bool
allowed_permissions policy actor none =
    ok (all (λ key. contains key actor.permissions) policy.required_permissions)
allowed_permissions policy actor (some db) = holds_each db actor policy.required_permissions

-- `allows`, with a database session or without
unfoldable pub allows : AuthorizationPolicy → Actor → Option Db → Outcome Bool
unfolding holds_each
allows policy actor db =
    if actor.is_superuser
    then ok true
    else if is_nonempty policy.required_roles && not (contains actor.role policy.required_roles)
    then ok false
    else if is_nonempty policy.required_permissions
    then allowed_permissions policy actor db
    else ok true

-- The dependency `require_policy(policy)`.
unfoldable pub require_policy : AuthorizationPolicy → Actor → Exec Server (Unit {0})
unfolding allows
require_policy policy actor = do
  held ← query (λ db. allows policy actor (some db))
  raise_if (not held) (http 403 "insufficient_permission")

-- `name or key`
abbrev pub name_or_key : Option String → String → String
name_or_key none key = key
name_or_key (some name) key = if name =s "" then key else name

-- `payload.get("name", payload["key"])`
abbrev pub name_or_default : Option String → String → String
name_or_default none key = key
name_or_default (some name) key = name

-- `ensure_permission`
unfoldable pub ensure_permission : String → Option String → Exec Server (Option Permission)
unfolding ensure_seed_data
ensure_permission key name = do
  ensure_seed_data
  existing ← gets (λ s. find (λ p. p.key =s key) s.work.permissions)
  elim existing [
    | some permission ↦ pure (some permission)
    | none ↦ do
      assign ← gets (λ s. s.assign_id)
      edit (add_permission assign key (name_or_key name key) none)
      commit_now
      gets (λ s. find (λ p. p.key =s key) s.work.permissions)
  ]

-- `list_permissions`; the rows stand in the order of their keys.
unfoldable pub list_permissions : Exec Server (List Permission)
list_permissions = do ensure_seed_data; gets (λ s. s.work.permissions)

abbrev manage_rbac : List String
manage_rbac = "rbac.manage" ∷ []

-- POST /admin/roles
unfoldable pub post_role : Actor → String → Option String → Exec Server (Option Role)
unfolding require_permission create_role
post_role actor key name = do
  require_permission actor manage_rbac
  role ← create_role key (name_or_default name key) none
  log "rbac.role_created"
  pure role

-- POST /admin/permissions
unfoldable pub post_permission : Actor → String → Option String → Exec Server (Option Permission)
unfolding require_permission create_permission
post_permission actor key name = do
  require_permission actor manage_rbac
  permission ← create_permission key (name_or_default name key) none
  log "rbac.permission_created"
  pure permission

-- GET of the route that tells whether the caller may view reports
unfoldable pub check_permission : Actor → Exec Server Bool
check_permission actor = query (λ db. user_has_permission db actor "reports.view")
