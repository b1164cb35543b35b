-- ===== src/Rbac/Queries.antt =====
-- What `RbacService` reads: who holds a permission, and which grants an acting user may make.
use enterprise_fast_api_boil.Base.{
  ℕ, ◌*◌, String, Bool, true, false, ◌&&◌, Option, none, some, List, [], ◌∷◌, ◌++◌, map, any, all,
  count, find, select, replicate, contains, contains_id, ◌==◌, ◌=s◌, if◌then◌else◌,
}
use enterprise_fast_api_boil.Base.Outcome.{
  rbac_permission, Outcome, ok, err, and_then, scalar_one_or_none,
}
use enterprise_fast_api_boil.Database.{User, RolePermission, UserRole, Db}

-- A signed-in user: the row, with the attributes that an API key adds to it.
pub record Actor : Type 0 where
  pub user : User
  pub open user use *
  pub api_key_scopes : Option (List String)

module _ (db : Db) where
  -- How often a row of `role_permissions` stands in the join with `permissions`, `roles` and
  -- `user_roles` that `user_has_permission` filters by a user and a key.
  unfoldable pub join_rows : ℕ → String → RolePermission → ℕ
  join_rows uid key rp =
      count (λ p. p.id == rp.permission_id && p.key =s key) db.permissions
      * count (λ r. r.id == rp.role_id) db.roles
      * count (λ ur. ur.user_id == uid && ur.role_id == rp.role_id) db.user_roles

  unfoldable pub permission_rows : ℕ → String → List RolePermission → List ℕ
  permission_rows uid key [] = []
  permission_rows uid key (rp ∷ rps) =
      replicate (join_rows uid key rp) rp.permission_id ++ permission_rows uid key rps

  abbrev found : Option ℕ → Outcome Bool
  found none = ok false
  found (some _) = ok true

  unfoldable pub user_has_permission : Actor → String → Outcome Bool
  unfolding permission_rows
  user_has_permission actor key =
      if actor.is_superuser then ok true else elim actor.api_key_scopes [
        | some scopes ↦ ok (contains key scopes)
        | none ↦
            if contains key actor.permissions
            then ok true
            else and_then (scalar_one_or_none (permission_rows actor.id key db.role_permissions))
                found
      ]

  unfoldable pub user_has_all_permissions : Actor → List String → Outcome Bool
  user_has_all_permissions actor [] = ok true
  user_has_all_permissions actor (key ∷ keys) =
      let rest = user_has_all_permissions actor keys in
      and_then (user_has_permission actor key) (λ held. if held then rest else ok false)

  -- `can_assign_permission` for each key
  unfoldable pub validate_assignment_scope : Actor → List String → Outcome (Unit {0})
  validate_assignment_scope actor [] = ok tt
  validate_assignment_scope actor (key ∷ keys) =
      let rest = validate_assignment_scope actor keys in
      and_then (user_has_permission actor key) (λ held.
        if held then rest else err (rbac_permission "acting user cannot assign the permission"))

  -- The keys of the permissions with the given identifiers.
  abbrev pub granted_keys : List ℕ → List String
  granted_keys ids = map (λ p. p.key) (select (λ p. contains_id p.id ids) db.permissions)

  -- The keys of the permissions that the given roles carry.
  abbrev pub role_keys : List ℕ → List String
  role_keys ids =
      map (λ p. p.key)
        (select
          (λ p.
            any (λ rp. p.id == rp.permission_id && contains_id rp.role_id ids) db.role_permissions)
          db.permissions)

  abbrev pub must_hold : Actor → List String → String → Outcome (Unit {0})
  must_hold actor keys message =
      and_then (user_has_all_permissions actor keys)
        (λ held. if held then ok tt else err (rbac_permission message))

  -- The early returns on an empty list of identifiers, and on an empty set of keys, are the case
  -- of no key to check. The set's keys are visited in the order of the table.
  unfoldable pub validate_grant_scope : Actor → List ℕ → Outcome (Unit {0})
  validate_grant_scope actor permission_ids =
      if actor.is_superuser
      then ok tt
      else must_hold actor (granted_keys permission_ids)
          "acting user cannot grant the requested permissions"

  unfoldable pub validate_role_assignment_scope : Actor → List ℕ → Outcome (Unit {0})
  validate_role_assignment_scope actor role_ids =
      if actor.is_superuser
      then ok tt
      else must_hold actor (role_keys role_ids) "acting user cannot assign the requested role"

  abbrev pub admin_key : String
  admin_key = "admin"

  abbrev last_assignment : ℕ → Option ℕ → Outcome (Unit {0})
  last_assignment admin_id none = ok tt
  last_assignment admin_id (some role_id) =
      if role_id == admin_id
      then (if any (λ ur. ur.role_id == admin_id) db.user_roles
          then ok tt
          else err (rbac_permission "cannot remove the last admin role assignment"))
      else ok tt

  -- `admin_role.id in role_ids and len(role_ids) == 1`, on the set of the user's roles.
  abbrev pub only_admin : ℕ → List UserRole → Bool
  only_admin admin_id rows =
      any (λ ur. ur.role_id == admin_id) rows && all (λ ur. ur.role_id == admin_id) rows

  abbrev last_role : ℕ → Option ℕ → Outcome (Unit {0})
  last_role admin_id none = ok tt
  last_role admin_id (some user_id) =
      if only_admin admin_id (select (λ ur. ur.user_id == user_id) db.user_roles)
      then err (rbac_permission "cannot remove the last admin role from a user")
      else ok tt

  -- With neither argument given both checks pass, as the early return says.
  unfoldable pub ensure_admins_remain : Option ℕ → Option ℕ → Outcome (Unit {0})
  ensure_admins_remain role_id user_id = elim (find (λ r. r.key =s admin_key) db.roles) [
    | none ↦ ok tt
    | some admin_role ↦
        and_then (last_assignment admin_role.id role_id) (λ _. last_role admin_role.id user_id)
  ]
