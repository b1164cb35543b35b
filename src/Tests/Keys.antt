-- ===== src/Tests/Keys.antt =====
-- Theorems on features, API keys and outgoing webhooks, applied.
use enterprise_fast_api_boil.Base.{
  ℕ, suc, String, ◌≡◌, refl, Bool, true, none, some, List, [], ◌∷◌, contains, ltb, ◌=s◌,
  if◌then◌else◌,
}
use enterprise_fast_api_boil.Base.Outcome.{
  Outcome, ok, err, http, multiple_results, store_unavailable,
}
use enterprise_fast_api_boil.Database.{
  ApiKey, Db, PlanFeature, Subscription, WebhookEndpoint, WebhookDelivery,
}
use enterprise_fast_api_boil.Server.{Server}
use enterprise_fast_api_boil.Users.{get_by_id}
use enterprise_fast_api_boil.Rbac.Queries.{user_has_permission}
use enterprise_fast_api_boil.Billing.Entitlement.{feature_rows, user_has_feature}
use enterprise_fast_api_boil.Billing.Features.{entitled, user_has_feature_sound}
use enterprise_fast_api_boil.ApiKeys.{issue_key, current_user_by_key, revoke_key}
use enterprise_fast_api_boil.ApiKeys.Issued.{issued, issued_key_opens, revoked_key_refused}
use enterprise_fast_api_boil.Resilience.Retry.{retry_async, Retried, retry_until_success}
use enterprise_fast_api_boil.Tests.Data.{server, tables, cy}

-- The user has two plans, and both map the one feature.
abbrev subscription : ℕ → Subscription
subscription i = record {
  id = i;
  user_id = 3;
  plan_id = i;
  status = "active";
  provider = "manual";
  trial_ends_at = none;
}

abbrev with_plans : List PlanFeature → Db
with_plans pfs = record tables {
  features = record { id = 1; key = "reports.export"; name = "Reports"; description = none } ∷ [];
  plan_features = pfs;
  subscriptions = subscription 1 ∷ subscription 2 ∷ [];
}

abbrev one_plan : Db
one_plan = with_plans (record { plan_id = 1; feature_id = 1 } ∷ [])

abbrev both_plans : Db
both_plans =
    with_plans
      (record { plan_id = 1; feature_id = 1 } ∷ record { plan_id = 2; feature_id = 1 } ∷ [])

user_has_feature_sound_example : true ≡ entitled one_plan cy "reports.export"
unfolding user_has_feature feature_rows
user_has_feature_sound_example = user_has_feature_sound one_plan cy "reports.export" refl

-- The two plans that map one feature make the check fail.
both_plans_fail : user_has_feature both_plans cy "reports.export" ≡ err multiple_results
unfolding user_has_feature feature_rows
both_plans_fail = refl

abbrev same : String → String → Bool
same w h = w =s h

abbrev scopes : List String
scopes = "rbac.manage" ∷ []

-- A plain user asks for a key with a scope that it does not hold, and gets it.
issued_key_opens_example :
    let (r, s1) = issue_key (λ w. w) "abcdefghijkl" cy "ci" scopes none server in
    let (a, s2) = current_user_by_key same 5 "abcdefghijkl" s1 in
    (r ≡ ok (issued (λ w. w) same "abcdefghijkl" cy "ci" scopes none server, "abcdefghijkl"))
    × (a ≡ ok (record { user = cy; api_key_scopes = some scopes }))
    × (user_has_permission s2.work
          (record { user = cy; api_key_scopes = some scopes })
          "rbac.manage"
        ≡ ok (contains "rbac.manage" scopes))
unfolding get_by_id
issued_key_opens_example =
    issued_key_opens (λ w. w) same "abcdefghijkl" "ci" "rbac.manage" scopes none 5 cy server refl
      refl refl refl refl

abbrev key : ApiKey
key = record {
  id = 1;
  owner_id = 3;
  name = "ci";
  key_prefix = "abcdefgh";
  hashed_secret = "abcdefghijkl";
  scopes = [];
  expires_at = none;
  last_used_at = none;
  revoked_at = none;
}

abbrev with_key : Server
with_key = record server { work = record tables { api_keys = key ∷ [] } }

revoked_key_refused_example :
    let (r, s1) = revoke_key 4 1 cy with_key in
    (r ≡ ok tt)
    × (current_user_by_key same 5 "abcdefghijkl" s1 ≡ (err (http 401 "Invalid API key"), s1))
revoked_key_refused_example =
    revoked_key_refused (λ w. w) same "abcdefghijkl" 4 5 cy key with_key refl refl refl

-- It fails twice, and then returns the number of calls so far.
abbrev third_time : ℕ → Outcome ℕ × ℕ
third_time n = (if ltb n 2 then err store_unavailable else ok n, suc n)

retry_until_success_example : Retried third_time 3 250 2 0 (retry_async third_time 3 250 2 0)
retry_until_success_example = retry_until_success third_time 3 250 2 0

abbrev endpoint : WebhookEndpoint
endpoint = record {
  id = 1;
  owner_id = 3;
  name = "hook";
  url = "https://example.org/hook";
  subscribed_events = "user.created" ∷ [];
  signing_secret = "s";
  is_active = true;
}

abbrev delivery : WebhookDelivery
delivery = record {
  id = 1;
  endpoint_id = 1;
  event_type = "user.created";
  attempt_count = 0;
  last_attempt_at = none;
  last_status_code = none;
  delivered_at = none;
}

abbrev with_hook : Server
with_hook = record server {
  work = record tables { webhook_endpoints = endpoint ∷ []; webhook_deliveries = delivery ∷ [] };
}
