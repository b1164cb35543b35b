-- ===== src/Admin/Bulk.antt =====
-- PATCH /admin/users/roles (`bulk_set_user_roles` of backend/app/api/v1/admin/router.py).
use enterprise_fast_api_boil.Base.{
  ℕ, ◌+◌, String, Bool, not, ◌&&◌, Option, none, some, List, [], ◌∷◌, select, contains, ltb, ◌=s◌,
  if◌then◌else◌,
}
use enterprise_fast_api_boil.Base.Outcome.{
  http, Outcome, ok, err, Exec, pure, gets, raise_if, and_then, scalar_one_or_none, ◌>>=◌, ◌>>◌,
}
use enterprise_fast_api_boil.Database.{User}
use enterprise_fast_api_boil.Server.{Server, query, log}
use enterprise_fast_api_boil.Users.{has_id, get_by_id, save_user}
use enterprise_fast_api_boil.Rbac.Queries.{Actor, ensure_admins_remain}
use enterprise_fast_api_boil.Rbac.Seed.{list_roles}
use enterprise_fast_api_boil.Admin.{
  require_role, admin_only, total_admins, role_keys_of, last_admin, set_permissions,
}

-- `BulkRoleUpdateEntry`
pub record BulkEntry : Type 0 where
  pub user_id : Option ℕ
  pub role : Option String
  pub permissions : Option (List String)

-- What one entry adds to the demotions and to the promotions, at the row that it names.
abbrev pub demotion : User → Option String → ℕ
demotion user none = 0
demotion user (some role) =
    if not (role =s user.role) && (user.role =s "admin" && not (role =s "admin")) then 1 else 0

abbrev pub promotion : User → Option String → ℕ
promotion user none = 0
promotion user (some role) =
    if not (role =s user.role) && (not (user.role =s "admin") && role =s "admin") then 1 else 0

abbrev pub look_up : List User → ℕ → Outcome (Option User)
look_up users i = scalar_one_or_none (select (has_id i) users)

abbrev pub weigh : Option User → Option String → ℕ × ℕ
weigh none role = (0, 0)
weigh (some user) role = (demotion user role, promotion user role)

abbrev pub add_pair : ℕ × ℕ → Outcome (ℕ × ℕ) → Outcome (ℕ × ℕ)
add_pair (d, p) (ok (ds, ps)) = ok (d + ds, p + ps)
add_pair _ (err e) = err e

abbrev pub weigh_entry : List User → Option ℕ → Option String → Outcome (ℕ × ℕ)
weigh_entry users none role = ok (0, 0)
weigh_entry users (some i) role = and_then (look_up users i) (λ found. ok (weigh found role))

-- The first loop: the demotions and the promotions, counted on the rows as they are.
unfoldable pub tally : List User → List BulkEntry → Outcome (ℕ × ℕ)
tally users [] = ok (0, 0)
tally users (e ∷ es) =
    let rest = tally users es in
    and_then (weigh_entry users e.user_id e.role) (λ w. add_pair w rest)

abbrev pub change_role : ℕ → User → Option String → Exec Server (Unit {0})
change_role user_id user none = pure tt
change_role user_id user (some role) = do
  roles ← list_roles
  raise_if (not (contains role (role_keys_of roles))) (http 422 "invalid role")
  query (λ db. ensure_admins_remain db none (some user_id))
  save_user user.id (λ u. record u { role = role })

abbrev pub change_user : ℕ → Option User → BulkEntry → Exec Server (Unit {0})
change_user user_id none e = pure tt
change_user user_id (some user) e = do
  change_role user_id user e.role
  set_permissions user e.permissions
  log "user.role_changed"

abbrev pub change_entry : Option ℕ → BulkEntry → Exec Server (Unit {0})
change_entry none e = pure tt
change_entry (some user_id) e = do found ← get_by_id user_id; change_user user_id found e

-- The second loop: an entry after another, each on the rows as the ones before left them.
unfoldable pub apply_updates : List BulkEntry → Exec Server (Unit {0})
unfolding get_by_id
apply_updates [] = pure tt
apply_updates (e ∷ es) = do change_entry e.user_id e; apply_updates es

-- The test between the loops, over Python's signed integers:
-- `total_admins - demotions + promotions < 1`.
abbrev pub leaves_none : ℕ → ℕ × ℕ → Bool
leaves_none total (demotions, promotions) = ltb (total + promotions) (1 + demotions)

-- The rows of the answer, which repeat what was written, are left out.
unfoldable pub bulk_set_user_roles : Actor → List BulkEntry → Exec Server (Unit {0})
unfolding require_role
bulk_set_user_roles actor updates = do
  require_role actor admin_only
  total ← gets (λ s. total_admins s.work)
  counts ← query (λ db. tally db.users updates)
  raise_if (leaves_none total counts) last_admin
  apply_updates updates
