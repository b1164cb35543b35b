-- ===== src/Billing/Entitlement.antt =====
-- Which features a user's plans carry: `BillingService.user_has_feature`, `require_feature` and
-- GET /billing/feature-check.
use enterprise_fast_api_boil.Base.{
  ℕ, String, Bool, true, false, not, ◌&&◌, ◌||◌, Option, none, some, List, [], ◌∷◌, ◌++◌, map,
  count, select, replicate, contains, contains_id, ◌==◌, ◌=s◌, if◌then◌else◌,
}
use enterprise_fast_api_boil.Base.Outcome.{
  http, Outcome, ok, Exec, pure, gets, raise, and_then, scalar_one_or_none, ◌>>=◌,
}
use enterprise_fast_api_boil.Database.{User, Subscription, PlanFeature, Db}
use enterprise_fast_api_boil.Server.{Server, query}

-- `status.in_({"active", "trialing"})`
abbrev pub is_current : Subscription → Bool
is_current sub = sub.status =s "active" || sub.status =s "trialing"

module _ (db : Db) where
  -- The plans of the user's current subscriptions.
  abbrev pub plan_ids : ℕ → List ℕ
  plan_ids uid =
      map (λ sub. sub.plan_id)
        (select (λ sub. sub.user_id == uid && is_current sub) db.subscriptions)

  -- The rows of `plan_features` of those plans that join a feature with the key, each as often as
  -- there is such a feature.
  unfoldable pub feature_rows : List ℕ → String → List PlanFeature → List ℕ
  feature_rows plans key [] = []
  feature_rows plans key (pf ∷ pfs) =
      replicate
        (if contains_id pf.plan_id plans
          then count (λ f. f.id == pf.feature_id && f.key =s key) db.features
          else 0)
        pf.feature_id
      ++ feature_rows plans key pfs

  abbrev pub present : Option ℕ → Outcome Bool
  present none = ok false
  present (some _) = ok true

  abbrev pub carried : List ℕ → String → Outcome Bool
  carried [] key = ok false
  carried (p ∷ ps) key =
      and_then (scalar_one_or_none (feature_rows (p ∷ ps) key db.plan_features)) present

  unfoldable pub user_has_feature : User → String → Outcome Bool
  user_has_feature user key = if user.is_superuser then ok true else carried (plan_ids user.id) key

-- What a route behind the gate answers.
pub data Gate : Type 0 where
  allowed feature_disabled feature_not_in_plan : Gate

abbrev pub plan_gate : Bool → Gate
plan_gate true = allowed
plan_gate false = feature_not_in_plan

-- GET /billing/feature-check; the answers are 200, 503 and 402.
unfoldable pub feature_check : User → String → Exec Server Gate
feature_check user key = do
  settings ← gets (λ s. s.settings)
  if contains key settings.disabled_features
      then pure feature_disabled
      else if settings.subscriptions_enabled && not user.is_superuser
      then (do held ← query (λ db. user_has_feature db user key); pure (plan_gate held))
      else pure allowed

abbrev pub gate_error : Gate → Exec Server (Unit {0})
gate_error allowed = pure tt
gate_error feature_disabled = raise (http 503 "feature_disabled")
gate_error feature_not_in_plan = raise (http 402 "feature_not_in_plan")

-- The dependency `require_feature(feature_key)`.
unfoldable pub require_feature : User → String → Exec Server (Unit {0})
require_feature user key = do
  settings ← gets (λ s. s.settings)
  if contains key settings.disabled_features
      then gate_error feature_disabled
      else if not settings.subscriptions_enabled || user.is_superuser
      then pure tt
      else (do held ← query (λ db. user_has_feature db user key); gate_error (plan_gate held))
