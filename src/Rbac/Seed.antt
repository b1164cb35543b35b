-- ===== src/Rbac/Seed.antt =====
-- `RbacService.ensure_seed_data` and the services that create and list roles and permissions.
use enterprise_fast_api_boil.Base.{
  ℕ, String, ◌≡◌, Bool, true, false, Option, none, some, List, [], ◌∷◌, ◌++◌, map, any, find, arith,
  ◌=s◌, if◌then◌else◌,
}
use enterprise_fast_api_boil.Base.Outcome.{ok, Exec, pure, gets, ◌>>=◌, ◌>>◌}
use enterprise_fast_api_boil.Database.{Role, Permission, Db}
use enterprise_fast_api_boil.Server.{Server, edit, commit_now}

module _ (assign_id : List ℕ → ℕ) where
  abbrev pub add_role : String → String → Option String → Bool → Db → Db
  add_role key name description is_system db = record db {
    roles =
        db.roles
        ++ (record {
          id = assign_id (map (λ r. r.id) db.roles);
          key = key;
          name = name;
          description = description;
          is_system = is_system;
        }
            ∷ []);
  }

  abbrev pub add_permission : String → String → Option String → Db → Db
  add_permission key name description db = record db {
    permissions =
        db.permissions
        ++ (record {
          id = assign_id (map (λ p. p.id) db.permissions);
          key = key;
          name = name;
          description = description;
        }
            ∷ []);
  }

  unfoldable pub seed_role : String → String → String → Db → Db
  seed_role key name description db =
      if any (λ r. r.key =s key) db.roles then db else add_role key name (some description) true db

  unfoldable pub seed_permission : String → String → Db → Db
  seed_permission key name db =
      if any (λ p. p.key =s key) db.permissions then db else add_permission key name none db

  unfoldable pub seed_rows : Db → Db
  unfolding seed_role seed_permission
  seed_rows db = seed_permission "audit.view" "View Audit Logs" (
      seed_permission "system.billing_toggle" "Toggle Billing System" (
        seed_permission "billing.manage" "Manage Billing" (
          seed_permission "rbac.manage" "Manage RBAC" (
            seed_role "admin" "Admin" "Administrative role" (
              seed_role "staff" "Staff" "Staff role"
                (seed_role "user" "User" "Default user role" db))))))

-- The flag is a global of the process: a rollback does not clear it.
unfoldable pub ensure_seed_data : Exec Server (Unit {0})
unfolding seed_rows
ensure_seed_data s = (
  ok tt,
  if s.rbac_seeded then s else record s { work = seed_rows s.assign_id s.work; rbac_seeded = true },
)

-- `create_role`: an existing key is answered with its row.
unfoldable pub create_role : String → String → Option String → Exec Server (Option Role)
unfolding ensure_seed_data
create_role key name description = do
  ensure_seed_data
  existing ← gets (λ s. find (λ r. r.key =s key) s.work.roles)
  elim existing [
    | some role ↦ pure (some role)
    | none ↦ do
      assign ← gets (λ s. s.assign_id)
      edit (add_role assign key name description false)
      commit_now
      gets (λ s. find (λ r. r.key =s key) s.work.roles)
  ]

unfoldable pub create_permission : String → String → Option String → Exec Server (Option Permission)
unfolding ensure_seed_data
create_permission key name description = do
  ensure_seed_data
  existing ← gets (λ s. find (λ p. p.key =s key) s.work.permissions)
  elim existing [
    | some permission ↦ pure (some permission)
    | none ↦ do
      assign ← gets (λ s. s.assign_id)
      edit (add_permission assign key name description)
      commit_now
      gets (λ s. find (λ p. p.key =s key) s.work.permissions)
  ]

-- `list_roles`; the rows stand in the order of their keys.
unfoldable pub list_roles : Exec Server (List Role)
list_roles = do ensure_seed_data; gets (λ s. s.work.roles)

pub seed-users : (s : Server) → (ensure_seed_data s).1.work.users ≡ s.work.users
unfolding ensure_seed_data seed_rows seed_role seed_permission
seed-users s = ground arith
