-- ===== src/Rbac/Assign.antt =====
-- `set_role_permissions` and `assign_roles_to_user` of backend/domain/rbac/service.py, and their
-- routes in backend/app/api/v1/rbac/router.py.
use enterprise_fast_api_boil.Base.{
  ℕ, String, not, none, some, List, [], ◌∷◌, ◌++◌, map, select, repeats, ◌==◌, if◌then◌else◌,
}
use enterprise_fast_api_boil.Base.Outcome.{
  Error, http, rbac_permission, integrity, ok, err, Exec, pure, raise_if, ◌>>=◌, ◌>>◌,
}
use enterprise_fast_api_boil.Database.{Db}
use enterprise_fast_api_boil.Server.{Server, edit, query, commit_now}
use enterprise_fast_api_boil.Rbac.Queries.{
  Actor, user_has_all_permissions, validate_assignment_scope, validate_grant_scope,
  validate_role_assignment_scope, ensure_admins_remain,
}
use enterprise_fast_api_boil.Rbac.Seed.{ensure_seed_data}

-- The rows of one role are replaced.
abbrev pub replace_grants : ℕ → List ℕ → Db → Db
replace_grants role_id permission_ids db = record db {
  role_permissions =
      select (λ rp. not (rp.role_id == role_id)) db.role_permissions
      ++ map (λ p. record { role_id = role_id; permission_id = p }) permission_ids;
}

-- The rows of one user are replaced.
abbrev pub replace_roles : ℕ → List ℕ → Db → Db
replace_roles user_id role_ids db = record db {
  user_roles =
      select (λ ur. not (ur.user_id == user_id)) db.user_roles
      ++ map (λ r. record { user_id = user_id; role_id = r }) role_ids;
}

-- `acting_user` given, as both routes do. A pair that is given twice breaks the primary key; foreign
-- keys are not checked here.
unfoldable pub set_role_permissions : ℕ → List ℕ → Actor → Exec Server (Unit {0})
set_role_permissions role_id permission_ids actor = do
  ensure_seed_data
  query (λ db. validate_grant_scope db actor permission_ids)
  raise_if (repeats permission_ids) integrity
  edit (replace_grants role_id permission_ids)
  commit_now

unfoldable pub assign_roles_to_user : ℕ → List ℕ → Actor → Exec Server (Unit {0})
assign_roles_to_user user_id role_ids actor = do
  ensure_seed_data
  query (λ db. validate_role_assignment_scope db actor role_ids)
  raise_if (repeats role_ids) integrity
  edit (replace_roles user_id role_ids)
  commit_now

-- `except RbacPermissionError`: every such error is answered with 403.
abbrev forbid : Error → Error
forbid (rbac_permission _) = http 403 "insufficient_permission"
forbid e = e

abbrev guarded : Exec Server (Unit {0}) → Exec Server (Unit {0})
guarded m s = let (r, s') = m s in (elim r [ ok a ↦ ok a | err e ↦ err (forbid e) ], s')

-- `require_permission(key)`, after the user is known to be active.
unfoldable pub require_permission : Actor → List String → Exec Server (Unit {0})
require_permission actor keys = do
  allowed ← query (λ db. user_has_all_permissions db actor keys)
  if allowed then pure tt else (λ s. (err (http 403 "insufficient_permission"), s))

abbrev pub manage : List String
manage = "rbac.manage" ∷ []

-- PUT /admin/roles/{role_id}/permissions
unfoldable pub put_role_permissions : Actor → ℕ → List ℕ → Exec Server (Unit {0})
unfolding require_permission set_role_permissions
put_role_permissions actor role_id permission_ids = do
  require_permission actor manage
  guarded (do
    query (λ db. validate_assignment_scope db actor manage)
    set_role_permissions role_id permission_ids actor)

-- POST /admin/users/{user_id}/roles
unfoldable pub post_user_roles : Actor → ℕ → List ℕ → Exec Server (Unit {0})
unfolding require_permission assign_roles_to_user
post_user_roles actor user_id role_ids = do
  require_permission actor manage
  guarded (do
    query (λ db. validate_assignment_scope db actor manage)
    query (λ db. ensure_admins_remain db none (some user_id))
    assign_roles_to_user user_id role_ids actor)
