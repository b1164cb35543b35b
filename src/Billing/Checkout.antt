-- ===== src/Billing/Checkout.antt =====
-- The remaining billing code: the settings, the list of all invoices and the checkout of
-- backend/app/api/v1/billing/router.py, and the seed of backend/domain/billing/service.py. The session
-- of a provider is its own.
use enterprise_fast_api_boil.Base.{
  ℕ, String, Bool, true, false, not, ◌&&◌, ◌||◌, Option, none, some, List, [], ◌∷◌, ◌++◌, map, find,
  any, contains, ◌==◌, ◌=s◌, if◌then◌else◌,
}
use enterprise_fast_api_boil.Base.Outcome.{ok, Exec, pure, gets, modify, ◌>>=◌, ◌>>◌}
use enterprise_fast_api_boil.Database.{Plan, Invoice, Db}
use enterprise_fast_api_boil.Server.{Server, Settings, log}
use enterprise_fast_api_boil.Rbac.Queries.{Actor}
use enterprise_fast_api_boil.Rbac.Assign.{require_permission}
use enterprise_fast_api_boil.Billing.Plans.{manage_billing}
use enterprise_fast_api_boil.Registration.{is_free, new_free_plan}

-- `payment_providers_enabled` in a payload: a list, or one value.
pub data Providers : Type 0 where
  many : List String → Providers
  single : String → Providers

module _ (normalize : String → String) where
  -- `[str(item).strip().lower() for item in values if str(item).strip()]`
  unfoldable pub provider_names : List String → List String
  provider_names [] = []
  provider_names (v ∷ vs) =
      let rest = provider_names vs in if normalize v =s "" then rest else normalize v ∷ rest

  abbrev pub names_of : Providers → List String
  names_of (many vs) = provider_names vs
  names_of (single v) = normalize v ∷ []

  abbrev pub set_enabled : Option Bool → Settings → Settings
  set_enabled none settings = settings
  set_enabled (some b) settings = record settings { subscriptions_enabled = b }

  abbrev pub set_providers : Option Providers → Settings → Settings
  set_providers none settings = settings
  set_providers (some vs) settings = record settings { payment_providers_enabled = names_of vs }

  -- PATCH /billing/admin/settings; the answer is whether it carries the warning.
  unfoldable pub update_billing_settings : Actor → Option Bool → Option Providers → Exec Server Bool
  unfolding require_permission provider_names
  update_billing_settings actor enabled providers = do
    require_permission actor manage_billing
    modify (λ s. record s { settings = set_providers providers (set_enabled enabled s.settings) })
    log "billing.settings_updated"
    gets (λ s. not s.settings.is_dev)

abbrev reverse_rows : List Invoice → List Invoice
reverse_rows [] = []
reverse_rows (i ∷ is) = reverse_rows is ++ (i ∷ [])

-- GET /billing/admin/invoices, the rows being stored in the order of their keys
unfoldable pub list_all_invoices : Actor → Exec Server (List Invoice)
unfolding require_permission
list_all_invoices actor = do
  require_permission actor manage_billing
  gets (λ s. reverse_rows s.work.invoices)

-- What the checkout answers: three refusals, or the session of the provider for a plan.
pub data Checkout : Type 0 where
  provider_not_enabled plan_not_found unsupported_provider : Checkout
  session : String → ℕ → Checkout

abbrev is_empty_list : List String → Bool
is_empty_list [] = true
is_empty_list (x ∷ xs) = false

abbrev pub checkout_plan : String → Option Plan → Checkout
checkout_plan provider none = plan_not_found
checkout_plan provider (some plan) =
    if provider =s "stripe" || provider =s "paypal"
    then session provider plan.id
    else unsupported_provider

-- POST /billing/checkout, with the provider in lower case
unfoldable pub create_checkout : String → ℕ → Exec Server Checkout
create_checkout provider plan_id = do
  enabled ← gets (λ s. s.settings.payment_providers_enabled)
  plan ← gets (λ s. find (λ p. p.id == plan_id) s.work.plans)
  if not (is_empty_list enabled) && not (contains provider enabled)
      then pure provider_not_enabled
      else pure (checkout_plan provider plan)

unfoldable pub add_free_plan : (List ℕ → ℕ) → Db → Db
add_free_plan assign db =
    if any is_free db.plans
    then db
    else record db { plans = db.plans ++ (new_free_plan (assign (map (λ p. p.id) db.plans)) ∷ []) }

-- `BillingService.ensure_seed_data`
unfoldable pub ensure_billing_seed : Exec Server (Unit {0})
unfolding add_free_plan
ensure_billing_seed s = (
  ok tt,
  if s.billing_seeded
      then s
      else record s { work = add_free_plan s.assign_id s.work; billing_seeded = true },
)
