-- ===== src/Tests/Administration.antt =====
-- Theorems on roles and permissions, applied, and a run that they exclude.
use enterprise_fast_api_boil.Base.{
  ℕ, ◌↔◌, false, contains, count, arith, ◌≤◌, String, ◌≡◌, ◌⊎◌, refl, true, none, some, List, [],
  ◌∷◌,
}
use enterprise_fast_api_boil.Base.Outcome.{multiple_results, ok, err}
use enterprise_fast_api_boil.Users.{get_by_id, update_user}
use enterprise_fast_api_boil.Rbac.Queries.{
  user_has_permission, user_has_all_permissions, validate_assignment_scope,
  validate_role_assignment_scope, ensure_admins_remain,
}
use enterprise_fast_api_boil.Rbac.Seed.{ensure_seed_data, list_roles}
use enterprise_fast_api_boil.Rbac.Assign.{require_permission, assign_roles_to_user, post_user_roles}
use enterprise_fast_api_boil.Rbac.Permission.{
  HasKeys, carries, user_has_permission_fails_iff, holds, role_grants, user_has_permission_sound,
}
use enterprise_fast_api_boil.Rbac.Escalation.{post_user_roles_no_escalation}
use enterprise_fast_api_boil.Admin.{require_role, total_admins}
use enterprise_fast_api_boil.Admin.Bulk.{BulkEntry, tally, apply_updates, bulk_set_user_roles}
use enterprise_fast_api_boil.Admin.LastAdmin.{bulk_keeps_admin}
use enterprise_fast_api_boil.Tests.Data.{server, tables, ann, bob, as_actor}

abbrev give : ℕ → String → BulkEntry
give i role = record { user_id = some i; role = some role; permissions = none }

-- One administrator is demoted and a user is promoted.
abbrev swap : List BulkEntry
swap = give 1 "user" ∷ give 3 "admin" ∷ []

bulk_keeps_admin_example : 1 ≤ total_admins (bulk_set_user_roles (as_actor ann) swap server).1.work
unfolding bulk_set_user_roles update_user require_role tally apply_updates get_by_id list_roles
    ensure_seed_data ensure_admins_remain
bulk_keeps_admin_example = bulk_keeps_admin (as_actor ann) swap server (refl, (refl, tt)) refl

-- One user promoted and demoted again makes up for both demotions, and nobody is left.
abbrev tangled : List BulkEntry
tangled = give 3 "admin" ∷ give 3 "user" ∷ give 1 "user" ∷ give 2 "user" ∷ []

tangled_leaves_none :
    let (r, s) = bulk_set_user_roles (as_actor ann) tangled server in
    (r ≡ ok tt) × (total_admins s.work ≡ 0)
unfolding bulk_set_user_roles update_user require_role tally apply_updates get_by_id list_roles
    ensure_seed_data ensure_admins_remain
tangled_leaves_none = (refl, refl)

user_has_permission_sound_example : true ≡ holds tables (as_actor ann) "rbac.manage"
unfolding user_has_permission
user_has_permission_sound_example =
    user_has_permission_sound tables (as_actor ann) "rbac.manage" refl

post_user_roles_no_escalation_example :
    (role_grants tables 3 "rbac.manage" ≡ true) ⊎ (holds tables (as_actor ann) "rbac.manage" ≡ true)
unfolding post_user_roles require_permission assign_roles_to_user user_has_permission
    user_has_all_permissions validate_assignment_scope validate_role_assignment_scope
    ensure_seed_data ensure_admins_remain
post_user_roles_no_escalation_example =
    post_user_roles_no_escalation (as_actor ann) (3 ∷ []) server refl 3 3 "rbac.manage" refl refl

-- Both roles of the user have the permission.
distinct_keys : HasKeys tables (as_actor bob) "rbac.manage"
distinct_keys = record {
  permissions = λ id. ground arith;
  roles = λ id. ground arith;
  user_roles = λ id. ground arith;
}

user_has_permission_fails_iff_example :
    (user_has_permission tables (as_actor bob) "rbac.manage" ≡ err multiple_results) ↔ (
      (bob.is_superuser ≡ false)
      × ((as_actor bob).api_key_scopes ≡ none)
      × (contains "rbac.manage" bob.permissions ≡ false)
      × (2 ≤ count (carries tables 2 "rbac.manage") tables.role_permissions))
user_has_permission_fails_iff_example =
    user_has_permission_fails_iff tables (as_actor bob) "rbac.manage" distinct_keys
