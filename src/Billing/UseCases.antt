-- ===== src/Billing/UseCases.antt =====
-- `BillingUseCases` of backend/application/billing/use_cases.py. Keys are unique in their tables.
use enterprise_fast_api_boil.Base.{
  ℕ, String, Bool, ◌&&◌, Option, none, some, [], ◌∷◌, ◌++◌, map, find, any, ◌==◌, ◌=s◌,
}
use enterprise_fast_api_boil.Base.Outcome.{
  integrity, value_error, Exec, pure, gets, or_raise, raise_if, ◌>>=◌, ◌>>◌,
}
use enterprise_fast_api_boil.Database.{Feature}
use enterprise_fast_api_boil.Server.{Server, edit, commit_now}
use enterprise_fast_api_boil.Billing.Plans.{add_plan, add_feature, with_feature}
use enterprise_fast_api_boil.Billing.Subscriptions.{add_subscription}

unfoldable pub create_plan : String → String → ℕ → String → Bool → Exec Server (Unit {0})
create_plan key name price_cents billing_interval is_active = do
  assign ← gets (λ s. s.assign_id)
  taken ← gets (λ s. any (λ p. p.key =s key) s.work.plans)
  raise_if taken integrity
  edit (add_plan assign key name price_cents billing_interval is_active)
  commit_now

unfoldable pub create_feature : String → String → Option String → Exec Server (Unit {0})
create_feature key name description = do
  assign ← gets (λ s. s.assign_id)
  taken ← gets (λ s. any (λ f. f.key =s key) s.work.features)
  raise_if taken integrity
  edit (add_feature assign key name description)
  commit_now

abbrev add_mapping : ℕ → Option Feature → Exec Server (Unit {0})
add_mapping plan_id none = pure tt
add_mapping plan_id (some feature) = do
  taken ←
      gets
        (λ s. any (λ pf. pf.plan_id == plan_id && pf.feature_id == feature.id) s.work.plan_features)
  raise_if taken integrity
  edit (λ db. record db {
    plan_features =
        db.plan_features ++ (record { plan_id = plan_id; feature_id = feature.id } ∷ []);
  })
  commit_now

-- `map_feature_to_plan`: a second mapping of the pair breaks the primary key.
unfoldable pub map_feature_to_plan : ℕ → String → Exec Server (Unit {0})
map_feature_to_plan plan_id key = do
  found ← gets (λ s. find (λ p. p.id == plan_id) s.work.plans)
  plan ← or_raise found (value_error "plan not found")
  assign ← gets (λ s. s.assign_id)
  edit (with_feature assign key)
  feature ← gets (λ s. find (λ f. f.key =s key) s.work.features)
  add_mapping plan.id feature

unfoldable pub assign_subscription : ℕ → ℕ → String → Exec Server (Unit {0})
assign_subscription user_id plan_id provider = do
  new_id ← gets (λ s. s.assign_id (map (λ sub. sub.id) s.work.subscriptions))
  edit (add_subscription new_id user_id plan_id "active" provider)
  commit_now
