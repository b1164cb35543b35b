-- ===== src/Tests/Prices.antt =====
-- Theorems on prices and trials, applied.
use enterprise_fast_api_boil.Base.{ℕ, min, ◌≤◌, ◌≡◌, refl, some, [], ◌∷◌}
use enterprise_fast_api_boil.Base.Int.{sub_ℕ, neg, magnitude}
use enterprise_fast_api_boil.Base.Outcome.{ok}
use enterprise_fast_api_boil.Database.{Subscription}
use enterprise_fast_api_boil.Server.{Server}
use enterprise_fast_api_boil.Billing.Subscriptions.{prorated_amount, expire_trial_subscriptions}
use enterprise_fast_api_boil.Billing.Proration.{Expiry, proration_balances, expire_trials_once}
use enterprise_fast_api_boil.Tests.Data.{server, tables}

proration_balances_example :
    (prorated_amount 1000 2500 30 ≡ sub_ℕ 1000 2500)
    × (magnitude (prorated_amount 1000 2500 (min 30 7)) ≤ magnitude (sub_ℕ 1000 2500))
    × (prorated_amount 2500 1000 7 ≡ neg (prorated_amount 1000 2500 7))
proration_balances_example = proration_balances 1000 2500 7

-- A downgrade by 15.00 for seven days: 3.50 back.
prorated_week : prorated_amount 1000 2500 7 ≡ neg (prorated_amount 350 0 30)
unfolding prorated_amount
prorated_week = refl

abbrev trial : Subscription
trial = record {
  id = 1;
  user_id = 3;
  plan_id = 1;
  status = "trialing";
  provider = "manual";
  trial_ends_at = some 100;
}

abbrev on_trial : Server
on_trial = record server { work = record tables { subscriptions = trial ∷ [] } }

expire_trials_once_example :
    let (r, s) = expire_trial_subscriptions 100 on_trial in
    (n : ℕ) × (r ≡ ok n)
    × Expiry 100 n (trial ∷ []) s.work.subscriptions
    × (s.durable ≡ s.work)
    × (expire_trial_subscriptions 100 s ≡ (ok 0, s))
expire_trials_once_example = expire_trials_once 100 on_trial
