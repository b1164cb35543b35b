-- ===== src/Startup/Seeds.antt =====
-- The rows that a started server has.
use enterprise_fast_api_boil.Base.{
  ℕ, String, ◌≡◌, refl, sym, ap, ◌∙◌, Bool, true, false, ◌||◌, List, [], ◌∷◌, ◌++◌, any, arith,
  Bool-cases, inl, inr, eq_iff, ◌=s◌,
}
use mathlib.Core.Path.{subst}
use enterprise_fast_api_boil.Base.Outcome.{ok, err}
use enterprise_fast_api_boil.Database.{Role, Permission, Db}
use enterprise_fast_api_boil.Server.{Server}
use enterprise_fast_api_boil.Rbac.Seed.{seed_role, seed_permission, seed_rows, ensure_seed_data}
use enterprise_fast_api_boil.Registration.{is_free}
use enterprise_fast_api_boil.Billing.Checkout.{add_free_plan}
use enterprise_fast_api_boil.Uploads.Storage.{UploadStorage}
use enterprise_fast_api_boil.Resilience.RateLimit.{Requests}
use enterprise_fast_api_boil.Resilience.RateLimit.Redis.{
  SortedSets, RedisRateLimiter, shared, over_redis, no_reset,
}
use enterprise_fast_api_boil.Startup.{reset_first, AppState, infrastructure_registry, start_up}

abbrev pub role_is : String → Db → Bool
role_is key db = any (λ r. r.key =s key) db.roles

abbrev pub permission_is : String → Db → Bool
permission_is key db = any (λ p. p.key =s key) db.permissions

-- The roles, the permissions and the free plan are there.
abbrev pub HasSeed : Db → Type 0
HasSeed db =
    (role_is "user" db ≡ true)
    × (role_is "staff" db ≡ true)
    × (role_is "admin" db ≡ true)
    × (permission_is "rbac.manage" db ≡ true)
    × (permission_is "billing.manage" db ≡ true)
    × (permission_is "system.billing_toggle" db ≡ true)
    × (permission_is "audit.view" db ≡ true)
    × (any is_free db.plans ≡ true)

any-snoc :
    {A : Type 0} (p : A → Bool) (xs : List A) (x : A) → any p (xs ++ (x ∷ [])) ≡ (any p xs || p x)
any-snoc p [] x = ground arith
any-snoc p (y ∷ ys) x = ground (arith, any-snoc p ys x)

module _ (assign_id : List ℕ → ℕ) where
  role_is-seed_role :
      (k key name description : String) (db : Db)
      → role_is k (seed_role assign_id key name description db) ≡ (role_is k db || key =s k)
  unfolding seed_role
  role_is-seed_role k key name description db = elim (Bool-cases (role_is key db)) [
    | inl there ↦ rw there (ground (arith, there, eq_iff key k))
    | inr missing ↦ rw missing (any-snoc (λ (r : Role). r.key =s k) db.roles _)
  ]

  permission_is-seed_permission :
      (k key name : String) (db : Db)
      → permission_is k (seed_permission assign_id key name db) ≡ (permission_is k db || key =s k)
  unfolding seed_permission
  permission_is-seed_permission k key name db = elim (Bool-cases (permission_is key db)) [
    | inl there ↦ rw there (ground (arith, there, eq_iff key k))
    | inr missing ↦ rw missing (any-snoc (λ (p : Permission). p.key =s k) db.permissions _)
  ]

  permission_is-seed_role :
      (k key name description : String) (db : Db)
      → permission_is k (seed_role assign_id key name description db) ≡ permission_is k db
  unfolding seed_role
  permission_is-seed_role k key name description db = ground arith

  role_is-seed_permission :
      (k key name : String) (db : Db)
      → role_is k (seed_permission assign_id key name db) ≡ role_is k db
  unfolding seed_permission
  role_is-seed_permission k key name db = ground arith

  role_is-add_free_plan :
      (k : String) (db : Db) → role_is k (add_free_plan assign_id db) ≡ role_is k db
  unfolding add_free_plan
  role_is-add_free_plan k db = ground arith

  permission_is-add_free_plan :
      (k : String) (db : Db) → permission_is k (add_free_plan assign_id db) ≡ permission_is k db
  unfolding add_free_plan
  permission_is-add_free_plan k db = ground arith

  ruleset seed_laws = (
    role_is-seed_role, permission_is-seed_permission, permission_is-seed_role,
    role_is-seed_permission, role_is-add_free_plan, permission_is-add_free_plan,
  )

  role_is-seed_rows :
      (k : String) (db : Db)
      → role_is k (seed_rows assign_id db)
        ≡ (((role_is k db || "user" =s k) || "staff" =s k) || "admin" =s k)
  unfolding seed_rows
  role_is-seed_rows k db = simp seed_laws

  permission_is-seed_rows :
      (k : String) (db : Db)
      → permission_is k (seed_rows assign_id db) ≡ (
          (((permission_is k db || "rbac.manage" =s k) || "billing.manage" =s k)
            || "system.billing_toggle" =s k)
          || "audit.view" =s k)
  unfolding seed_rows
  permission_is-seed_rows k db = simp seed_laws

  any-add_free_plan : (db : Db) → any is_free (add_free_plan assign_id db).plans ≡ true
  unfolding add_free_plan
  any-add_free_plan db = elim (Bool-cases (any is_free db.plans)) [
    | inl there ↦ rw there there
    | inr missing ↦ rw missing (any-snoc is_free db.plans _ ∙ ground (arith, missing))
  ]

  seeded : Db → Db
  seeded db = add_free_plan assign_id (seed_rows assign_id db)

  seeded-HasSeed : (db : Db) → HasSeed (seeded db)
  unfolding seeded
  seeded-HasSeed db =
      let rows = seed_rows assign_id db in
      let role = λ (k : String). role_is-add_free_plan k rows ∙ role_is-seed_rows k db in
      let permission =
        λ (k : String). permission_is-add_free_plan k rows ∙ permission_is-seed_rows k db in
      (
        role "user" ∙ ground arith,
        role "staff" ∙ ground arith,
        role "admin" ∙ ground arith,
        permission "rbac.manage" ∙ ground arith,
        permission "billing.manage" ∙ ground arith,
        permission "system.billing_toggle" ∙ ground arith,
        permission "audit.view" ∙ ground arith,
        any-add_free_plan rows,
      )

  seed_role-there :
      (key name description : String) (db : Db)
      → role_is key db ≡ true
      → seed_role assign_id key name description db ≡ db
  unfolding seed_role
  seed_role-there key name description db there = rw there refl

  seed_permission-there :
      (key name : String) (db : Db)
      → permission_is key db ≡ true
      → seed_permission assign_id key name db ≡ db
  unfolding seed_permission
  seed_permission-there key name db there = rw there refl

  add_free_plan-there : (db : Db) → any is_free db.plans ≡ true → add_free_plan assign_id db ≡ db
  unfolding add_free_plan
  add_free_plan-there db there = rw there refl

  seeded_again : (db : Db) → HasSeed db → seeded db ≡ db
  unfolding seeded seed_rows
  seeded_again db (user, staff, admin, rbac, billing, toggle, view, free) = simp (
    seed_role-there "user" "User" "Default user role" db user,
    seed_role-there "staff" "Staff" "Staff role" db staff,
    seed_role-there "admin" "Admin" "Administrative role" db admin,
    seed_permission-there "rbac.manage" "Manage RBAC" db rbac,
    seed_permission-there "billing.manage" "Manage Billing" db billing,
    seed_permission-there "system.billing_toggle" "Toggle Billing System" db toggle,
    seed_permission-there "audit.view" "View Audit Logs" db view,
    add_free_plan-there db free,
  )

-- A process in which nothing is seeded or pending.
abbrev pub IsNew : Server → Type 0
IsNew s = (s.rbac_seeded ≡ false) × (s.billing_seeded ≡ false) × (s.work ≡ s.durable)

seeded_server : Server → Server
seeded_server s = record s {
  durable = seeded s.assign_id s.work;
  work = seeded s.assign_id s.work;
  rbac_seeded = true;
  billing_seeded = true;
}

module _ {redis : SortedSets} {J : Type 0} where
  start_up-server :
      (storage : UploadStorage) (a : AppState redis J) (requests : Requests)
      → a.limiter ≡ shared requests
      → IsNew a.server
      → ((start_up (infrastructure_registry storage) a).0 ≡ ok tt)
        × ((start_up (infrastructure_registry storage) a).1.server ≡ seeded_server a.server)
  unfolding start_up reset_first seeded_server seeded ensure_seed_data
  start_up-server storage a requests in_memory (rbac, billing, clean) =
      rw in_memory (rw rbac (rw billing (refl, refl)))

  start_up-over_redis :
      (storage : UploadStorage) (c : AppState redis J) (limiter : RedisRateLimiter redis)
      → c.limiter ≡ over_redis limiter
      → start_up (infrastructure_registry storage) c ≡ (err no_reset, c)
  unfolding start_up reset_first
  start_up-over_redis storage c limiter on_redis = rw on_redis refl

  -- With the limiter in memory the start of a process, with nothing seeded or pending, succeeds and
  -- commits the seed rows; another such process that starts on the same database succeeds and adds
  -- nothing. With the limiter over Redis, which backend/main.py takes outside of development, the start
  -- fails, and nothing is changed.
  pub start_up_lem :
      (storage : UploadStorage) (a b c : AppState redis J) (requests requests' : Requests)
      (limiter : RedisRateLimiter redis)
      → a.limiter ≡ shared requests
      → b.limiter ≡ shared requests'
      → c.limiter ≡ over_redis limiter
      → IsNew a.server
      → IsNew b.server
      → b.server.durable ≡ (start_up (infrastructure_registry storage) a).1.server.durable
      → let (r, a') = start_up (infrastructure_registry storage) a in
        let (q, b') = start_up (infrastructure_registry storage) b in
        (r ≡ ok tt)
        × HasSeed a'.server.durable
        × (a'.server.work ≡ a'.server.durable)
        × (a'.server.rbac_seeded ≡ true)
        × (a'.server.billing_seeded ≡ true)
        × (q ≡ ok tt)
        × (b'.server.durable ≡ a'.server.durable)
        × (start_up (infrastructure_registry storage) c ≡ (err no_reset, c))
  unfolding seeded_server start_up reset_first
  start_up_lem storage a b c requests requests' limiter in_memory in_memory' on_redis new_a new_b
        same =
      let (ok_a, at_a) = start_up-server storage a requests in_memory new_a in
      let (ok_b, at_b) = start_up-server storage b requests' in_memory' new_b in
      let rows_a = ap (λ (s : Server). s.durable) at_a in
      let has_a = subst HasSeed (sym rows_a) (seeded-HasSeed a.server.assign_id a.server.work) in
      let found = new_b.2 ∙ same in
      (
        ok_a,
        has_a,
        ap (λ (s : Server). s.work) at_a ∙ sym rows_a,
        ap (λ (s : Server). s.rbac_seeded) at_a,
        ap (λ (s : Server). s.billing_seeded) at_a,
        ok_b,
        ap (λ (s : Server). s.durable) at_b
            ∙ seeded_again b.server.assign_id b.server.work (subst HasSeed (sym found) has_a)
            ∙ found,
        start_up-over_redis storage c limiter on_redis,
      )
