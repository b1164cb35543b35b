-- ===== src/Rbac/Escalation.antt =====
-- Nobody hands out more than it holds (`validate_grant_scope`, `validate_role_assignment_scope`).
use enterprise_fast_api_boil.Base.{
  ℕ, String, ◌≡◌, refl, ◌⊎◌, inl, inr, Bool, true, false, ◌&&◌, not, List, any, select, contains_id,
  ◌==◌, ◌=s◌, arith, ==_iff, eq_iff,
}
use enterprise_fast_api_boil.Base.Outcome.{ok}
use enterprise_fast_api_boil.Base.Member.{
  In, any-witness, any-intro, In-select, In-of_select, In-of_append, In-of_map, In-map,
  contains_id-In, all-In,
}
use enterprise_fast_api_boil.Database.{Permission, RolePermission, UserRole, Db}
use enterprise_fast_api_boil.Server.{Server}
use enterprise_fast_api_boil.Rbac.Queries.{
  Actor, user_has_all_permissions, validate_grant_scope, validate_role_assignment_scope,
  granted_keys, role_keys,
}
use enterprise_fast_api_boil.Rbac.Permission.{
  carries, role_grants, holds, user_has_all_permissions_sound,
}
use enterprise_fast_api_boil.Rbac.Seed.{ensure_seed_data}
use enterprise_fast_api_boil.Rbac.Assign.{
  replace_grants, replace_roles, post_user_roles, put_role_permissions,
}

&&-parts : (a b : Bool) → (a && b) ≡ true → (a ≡ true) × (b ≡ true)
&&-parts true b h = (refl, h)
&&-parts false b h = absurd (ground arith)

module _ (db : Db) (actor : Actor) (key : String) where
  must_hold_sound :
      (keys : List String)
      → user_has_all_permissions db actor keys ≡ ok true
      → In key keys
      → holds db actor key ≡ true
  must_hold_sound keys h m =
      all-In (holds db actor) key keys (user_has_all_permissions_sound db actor keys h) m

  grant_scope_sound :
      (ids : List ℕ)
      → validate_grant_scope db actor ids ≡ ok tt
      → In key (granted_keys db ids)
      → holds db actor key ≡ true
  unfolding validate_grant_scope
  grant_scope_sound ids h m = ground (arith, must_hold_sound (granted_keys db ids), m)

  role_scope_sound :
      (ids : List ℕ)
      → validate_role_assignment_scope db actor ids ≡ ok tt
      → In key (role_keys db ids)
      → holds db actor key ≡ true
  unfolding validate_role_assignment_scope
  role_scope_sound ids h m = ground (arith, must_hold_sound (role_keys db ids), m)

-- A key that a grant carries is the key of a permission row with the grant's identifier.
key_of_row :
    (db : Db) (key : String) (pid : ℕ)
    → any (λ p. p.id == pid && p.key =s key) db.permissions ≡ true
    → (p : Permission) × In p db.permissions × (p.id ≡ pid) × (p.key ≡ key)
key_of_row db key pid h =
    let (p, m, t) = any-witness (λ p. p.id == pid && p.key =s key) db.permissions h in
    let (a, b) = &&-parts (p.id == pid) (p.key =s key) t in
    (p, m, (==_iff _ _).0 a, (eq_iff _ _).0 b)

module _ (db : Db) (ids : List ℕ) (key : String) where
  In-granted_keys :
      (pid : ℕ)
      → any (λ p. p.id == pid && p.key =s key) db.permissions ≡ true
      → In pid ids
      → In key (granted_keys db ids)
  In-granted_keys pid h m =
      let (p, n, e, k) = key_of_row db key pid h in
      rw (← k) (
        In-map (λ (q : Permission). q.key) p (select (λ q. contains_id q.id ids) db.permissions)
          (In-select (λ (q : Permission). contains_id q.id ids) p db.permissions n
            (rw e (contains_id-In pid ids m))))

  In-role_keys :
      (rp : RolePermission)
      → In rp db.role_permissions
      → any (λ p. p.id == rp.permission_id && p.key =s key) db.permissions ≡ true
      → In rp.role_id ids
      → In key (role_keys db ids)
  In-role_keys rp g h m =
      let (p, n, e, k) = key_of_row db key rp.permission_id h in
      rw (← k) (
        In-map (λ (q : Permission). q.key) p _
          (In-select _ p db.permissions n (
            any-intro _ rp db.role_permissions g
              (ground (arith, contains_id-In rp.role_id ids m, e)))))

module _ (db : Db) (uid : ℕ) (key : String) where
  carries_parts :
      (rp : RolePermission)
      → carries db uid key rp ≡ true
      → (any (λ p. p.id == rp.permission_id && p.key =s key) db.permissions ≡ true)
        × (any (λ r. r.id == rp.role_id) db.roles ≡ true)
        × (any (λ ur. ur.user_id == uid && ur.role_id == rp.role_id) db.user_roles ≡ true)
  carries_parts rp h = ground arith

  carries_intro :
      (rp : RolePermission)
      → any (λ p. p.id == rp.permission_id && p.key =s key) db.permissions ≡ true
      → any (λ r. r.id == rp.role_id) db.roles ≡ true
      → any (λ ur. ur.user_id == uid && ur.role_id == rp.role_id) db.user_roles ≡ true
      → carries db uid key rp ≡ true
  carries_intro rp p r u = ground arith

-- A new row of `user_roles` that gives a role to a user is an old one, or one of those assigned.
assigned_row :
    (db : Db) (uid rid v : ℕ) (ids : List ℕ)
    → any (λ ur. ur.user_id == v && ur.role_id == rid) (replace_roles uid ids db).user_roles ≡ true
    → (any (λ ur. ur.user_id == v && ur.role_id == rid) db.user_roles ≡ true) ⊎ In rid ids
assigned_row db uid rid v ids h =
    let row = λ (ur : UserRole). ur.user_id == v && ur.role_id == rid in
    let (ur, m, t) = any-witness row (replace_roles uid ids db).user_roles h in
    let (_, same) = &&-parts (ur.user_id == v) (ur.role_id == rid) t in
    elim (In-of_append ur (select (λ w. not (w.user_id == uid)) db.user_roles) _ m) [
      | inl old ↦ inl (
          any-intro row ur db.user_roles
            (In-of_select (λ w. not (w.user_id == uid)) ur db.user_roles old).0 t)
      | inr new ↦
          let (r, n, e) = In-of_map (λ r. record { user_id = uid; role_id = r }) ur ids new in
          inr (rw (← (==_iff _ _).0 same) (rw e n))
    ]

module _ (db : Db) (actor : Actor) (ids : List ℕ) (v : ℕ) (key : String) where
  replace_roles_no_escalation :
      (uid : ℕ)
      → validate_role_assignment_scope db actor ids ≡ ok tt
      → role_grants (replace_roles uid ids db) v key ≡ true
      → (role_grants db v key ≡ true) ⊎ (holds db actor key ≡ true)
  replace_roles_no_escalation uid allowed h =
      let after = replace_roles uid ids db in
      let (rp, m, c) = any-witness (carries after v key) db.role_permissions h in
      let (p, r, u) = carries_parts after v key rp c in
      elim (assigned_row db uid rp.role_id v ids u) [
        | inl old ↦ inl (
            any-intro (carries db v key) rp db.role_permissions m
              (carries_intro db v key rp p r old))
        | inr new ↦
            inr (role_scope_sound db actor key ids allowed (In-role_keys db ids key rp m p new))
      ]

  replace_grants_no_escalation :
      (rid : ℕ)
      → validate_grant_scope db actor ids ≡ ok tt
      → role_grants (replace_grants rid ids db) v key ≡ true
      → (role_grants db v key ≡ true) ⊎ (holds db actor key ≡ true)
  replace_grants_no_escalation rid allowed h =
      let after = replace_grants rid ids db in
      let (rp, m, c) = any-witness (carries after v key) after.role_permissions h in
      let (p, r, u) = carries_parts after v key rp c in
      elim (In-of_append rp (select (λ w. not (w.role_id == rid)) db.role_permissions) _ m) [
        | inl old ↦ inl (
            any-intro (carries db v key) rp db.role_permissions
              (In-of_select (λ w. not (w.role_id == rid)) rp db.role_permissions old).0
              (carries_intro db v key rp p r u))
        | inr new ↦
            let (q, n, e) =
              In-of_map (λ q. record { role_id = rid; permission_id = q }) rp ids new in
            inr (
              grant_scope_sound db actor key ids allowed
                (In-granted_keys db ids key rp.permission_id p (rw e n)))
      ]

seeded : (s : Server) → s.rbac_seeded ≡ true → ensure_seed_data s ≡ (ok tt, s)
unfolding ensure_seed_data
seeded s h = ground arith

module _ (actor : Actor) (ids : List ℕ) (s : Server) (ready : s.rbac_seeded ≡ true) where
  -- On a server that has its seed data: when POST /admin/users/{user_id}/roles succeeds, whatever
  -- key any user then has through its roles, it had before, or the caller holds it.
  pub post_user_roles_no_escalation :
      (user_id v : ℕ) (key : String)
      → (post_user_roles actor user_id ids s).0 ≡ ok tt
      → role_grants (post_user_roles actor user_id ids s).1.work v key ≡ true
      → (role_grants s.work v key ≡ true) ⊎ (holds s.work actor key ≡ true)
  unfolding post_user_roles
  post_user_roles_no_escalation user_id v key done after =
      ground (arith, seeded s ready, replace_roles_no_escalation s.work actor ids v key user_id)

  -- On a server that has its seed data: when PUT /admin/roles/{role_id}/permissions succeeds,
  -- whatever key any user then has through its roles, it had before, or the caller holds it.
  pub put_role_permissions_no_escalation :
      (role_id v : ℕ) (key : String)
      → (put_role_permissions actor role_id ids s).0 ≡ ok tt
      → role_grants (put_role_permissions actor role_id ids s).1.work v key ≡ true
      → (role_grants s.work v key ≡ true) ⊎ (holds s.work actor key ≡ true)
  unfolding put_role_permissions
  put_role_permissions_no_escalation role_id v key done after =
      ground (arith, seeded s ready, replace_grants_no_escalation s.work actor ids v key role_id)
