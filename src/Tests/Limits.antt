-- ===== src/Tests/Limits.antt =====
-- Theorems on the rate limiter and on payment events, applied.
use enterprise_fast_api_boil.Base.{ℕ, ◌≤◌, refl, true, false, List, [], ◌∷◌, count, arith}
use enterprise_fast_api_boil.Resilience.RateLimit.{reset}
use enterprise_fast_api_boil.Resilience.RateLimit.Window.{Request, accepted, inside, window_bound}
use enterprise_fast_api_boil.Billing.PaymentWebhook.{Payload}
use enterprise_fast_api_boil.Billing.PaymentWebhook.Once.{times_processed, processed_once}
use enterprise_fast_api_boil.Tests.Data.{server}

abbrev pub ask : ℕ → Request
ask now = record { now = now; key = ("10.0.0.1", "/auth/login"); limit = 2 }

abbrev requests : List Request
requests = ask 1 ∷ ask 2 ∷ ask 3 ∷ ask 60_000_001 ∷ []

window_bound_example :
    count (inside 60_000_001) (accepted ("10.0.0.1", "/auth/login") requests reset) ≤ 2
window_bound_example =
    window_bound ("10.0.0.1", "/auth/login") 2 requests 60_000_001
      (omega arith, (omega arith, (omega arith, (omega arith, tt))))
      (λ _. refl, (λ _. refl, (λ _. refl, (λ _. refl, tt))))

abbrev paid : Payload
paid = record {
  provider = "stripe";
  event_id = "evt_1";
  event_type = "checkout.session.completed";
  signature = "t=1,v1=ab";
  user_id = 3;
  plan_id = 1;
  subscription_id = 0;
}

processed_once_example :
    times_processed
      (λ p e. p)
      (λ p. p)
      (λ p q. true)
      "stripe"
      "evt_1"
      ((false, paid) ∷ (true, paid) ∷ (false, paid) ∷ [])
      server
    ≤ 1
processed_once_example =
    processed_once (λ p e. p) (λ p. p) (λ p q. true) "stripe" "evt_1"
      ((false, paid) ∷ (true, paid) ∷ (false, paid) ∷ []) server refl
