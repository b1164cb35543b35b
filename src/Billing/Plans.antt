-- ===== src/Billing/Plans.antt =====
-- Plans and features: the administration routes of backend/app/api/v1/billing/router.py.
use enterprise_fast_api_boil.Base.{
  ℕ, String, Bool, true, false, ◌&&◌, Option, none, some, List, [], ◌∷◌, ◌++◌, map, find, any,
  select, ◌==◌, ◌=s◌, if◌then◌else◌,
}
use enterprise_fast_api_boil.Base.Outcome.{integrity, err, Exec, pure, gets, ◌>>=◌, ◌>>◌}
use enterprise_fast_api_boil.Database.{Plan, Feature, Db}
use enterprise_fast_api_boil.Server.{Server, edit, commit_now, log}
use enterprise_fast_api_boil.Rbac.Queries.{Actor}
use enterprise_fast_api_boil.Rbac.Assign.{require_permission}

abbrev pub manage_billing : List String
manage_billing = "billing.manage" ∷ []

abbrev pub add_plan : (List ℕ → ℕ) → String → String → ℕ → String → Bool → Db → Db
add_plan assign key name price_cents billing_interval is_active db = record db {
  plans =
      db.plans
      ++ (record {
        id = assign (map (λ p. p.id) db.plans);
        key = key;
        name = name;
        price_cents = price_cents;
        billing_interval = billing_interval;
        is_active = is_active;
      }
          ∷ []);
}

-- POST /billing/admin/plans. A second plan with a key in use breaks the unique constraint.
unfoldable pub create_plan : Actor → String → String → ℕ → String → Bool → Exec Server (Unit {0})
unfolding require_permission
create_plan actor key name price_cents billing_interval is_active = do
  require_permission actor manage_billing
  assign ← gets (λ s. s.assign_id)
  taken ← gets (λ s. any (λ p. p.key =s key) s.work.plans)
  if taken then (λ s. (err integrity, s)) else (do
    edit (add_plan assign key name price_cents billing_interval is_active)
    commit_now
    log "billing.plan_created")

abbrev pub add_feature : (List ℕ → ℕ) → String → String → Option String → Db → Db
add_feature assign key name description db = record db {
  features =
      db.features
      ++ (record {
        id = assign (map (λ f. f.id) db.features);
        key = key;
        name = name;
        description = description;
      }
          ∷ []);
}

-- POST /billing/admin/features
unfoldable pub create_feature : Actor → String → String → Option String → Exec Server (Unit {0})
unfolding require_permission
create_feature actor key name description = do
  require_permission actor manage_billing
  assign ← gets (λ s. s.assign_id)
  taken ← gets (λ s. any (λ f. f.key =s key) s.work.features)
  if taken then (λ s. (err integrity, s)) else (do
    edit (add_feature assign key name description)
    commit_now
    log "billing.feature_created")

abbrev pub link : ℕ → ℕ → Db → Db
link plan_id feature_id db =
    if any (λ pf. pf.plan_id == plan_id && pf.feature_id == feature_id) db.plan_features
    then db
    else record db {
      plan_features =
          db.plan_features ++ (record { plan_id = plan_id; feature_id = feature_id } ∷ []);
    }

abbrev pub link_found : ℕ → Option Feature → Db → Db
link_found plan_id none db = db
link_found plan_id (some feature) db = link plan_id feature.id db

abbrev pub with_feature : (List ℕ → ℕ) → String → Db → Db
with_feature assign key db =
    if any (λ f. f.key =s key) db.features then db else add_feature assign key key none db

-- One turn of the loop: the feature is created where it is missing, and linked where it is not.
unfoldable pub map_feature : (List ℕ → ℕ) → ℕ → String → Db → Db
map_feature assign plan_id key db =
    let db' = with_feature assign key db in
    link_found plan_id (find (λ f. f.key =s key) db'.features) db'

unfoldable pub map_features : (List ℕ → ℕ) → ℕ → List String → Db → Db
unfolding map_feature
map_features assign plan_id [] db = db
map_features assign plan_id (key ∷ keys) db =
    map_features assign plan_id keys (map_feature assign plan_id key db)

-- POST /billing/admin/plans/{plan_id}/features; the answer is whether the plan was found.
unfoldable pub map_plan_features : Actor → ℕ → List String → Exec Server Bool
unfolding require_permission map_features
map_plan_features actor plan_id keys = do
  require_permission actor manage_billing
  plan ← gets (λ s. find (λ p. p.id == plan_id) s.work.plans)
  elim plan [
    | none ↦ pure false
    | some _ ↦ do
      assign ← gets (λ s. s.assign_id)
      edit (map_features assign plan_id keys)
      commit_now
      log "billing.plan_features_mapped"
      pure true
  ]

-- GET /billing/plans; `none` of the rows that are not active.
unfoldable pub list_plans : Exec Server (List Plan)
list_plans = gets (λ s. select (λ p. p.is_active) s.work.plans)
