-- ===== src/Admin/SetRole.antt =====
-- The number of administrators through PATCH /admin/users/{user_id}/role.
use mathlib.Core.Path.{subst}
use enterprise_fast_api_boil.Base.{
  ℕ, ◌+◌, ◌≤◌, String, ◌≡◌, refl, sym, Option, none, some, List, [], ◌∷◌, inl, inr, select, arith,
}
use enterprise_fast_api_boil.Base.Outcome.{ok}
use enterprise_fast_api_boil.Database.{User}
use enterprise_fast_api_boil.Server.{Server}
use enterprise_fast_api_boil.Users.{has_id, update_user}
use enterprise_fast_api_boil.Rbac.Queries.{Actor}
use enterprise_fast_api_boil.Rbac.Seed.{ensure_seed_data, list_roles, seed-users}
use enterprise_fast_api_boil.Admin.{total_admins, set_role, set_permissions, set_user_role}
use enterprise_fast_api_boil.Admin.Bulk.{demotion, promotion}
use enterprise_fast_api_boil.Admin.LastAdmin.{
  count-update_one, role_moves, live_of_select, id_of_select, rename, row_cases, grant-count,
}

seeded_total : (s : Server) → total_admins (ensure_seed_data s).1.work ≡ total_admins s.work
seeded_total s = rw seed-users

module _ (u : User) (s : Server) (one : select (has_id u.id) s.work.users ≡ u ∷ []) where
  set_role-users :
      (role : String)
      → (set_role u (some role) s).0 ≡ ok tt
      → (set_role u (some role) s).1.work.users ≡ update_user u.id (rename role) s.work.users
  unfolding list_roles
  set_role-users role done = ground (arith, seed-users s)

  set_role-count :
      (role : String)
      → (set_role u (some role) s).0 ≡ ok tt
      → total_admins (set_role u (some role) s).1.work + demotion u (some role)
        ≡ total_admins s.work + promotion u (some role)
  set_role-count role done = rw (set_role-users role done) (
      omega (
        arith,
        count-update_one u.id (rename role) (λ v. refl) s.work.users u one,
        role_moves u role (live_of_select u.id u s.work.users one),
      ))

  -- The guard: a demotion is let through only beside another administrator.
  set_role-guard :
      (role : String)
      → (set_role u (some role) s).0 ≡ ok tt
      → total_admins s.work ≡ 1
      → demotion u (some role) ≡ 0
  unfolding list_roles
  set_role-guard role done single = ground (arith, seeded_total s)

demotion-le : (u : User) (role : String) → demotion u (some role) ≤ 1
demotion-le u role = ground arith

set_role_keeps :
    (u : User) (s : Server) (role : Option String)
    → select (has_id u.id) s.work.users ≡ u ∷ []
    → 1 ≤ total_admins s.work
    → (set_role u role s).0 ≡ ok tt
    → 1 ≤ total_admins (set_role u role s).1.work
set_role_keeps u s none one h done = h
set_role_keeps u s (some role) one h done =
    grind (
      arith,
      set_role-count u s one role done,
      set_role-guard u s one role done,
      demotion-le u role,
    )

set_permissions-total :
    (u : User) (permissions : Option (List String)) (s : Server)
    → total_admins (set_permissions u permissions s).1.work ≡ total_admins s.work
set_permissions-total u none s = refl
set_permissions-total u (some ps) s = grant-count u.id ps s.work.users

-- As long as there is an administrator, changing the role and the permissions of one user, when
-- it succeeds, leaves one.
pub set_user_role_keeps_admin :
    (actor : Actor) (user_id : ℕ) (role : Option String) (permissions : Option (List String))
    (s : Server)
    → 1 ≤ total_admins s.work
    → (set_user_role actor user_id role permissions s).0 ≡ ok tt
    → 1 ≤ total_admins (set_user_role actor user_id role permissions s).1.work
unfolding set_user_role
set_user_role_keeps_admin actor user_id role permissions s h done =
    elim (row_cases (select (has_id user_id) s.work.users)) [
      | inl no_row ↦ absurd (ground arith)
      | inr (inl (u, one)) ↦
          let e = id_of_select user_id u s.work.users one in
          ground (
            arith,
            set_permissions-total u permissions (set_role u role s).1,
            set_role_keeps u s role
                (subst (λ i. select (has_id i) s.work.users ≡ u ∷ []) (sym e) one),
          )
      | inr (inr many) ↦ absurd (ground arith)
    ]
