-- ===== src/Billing/PaymentWebhook.antt =====
-- POST /billing/webhooks/stripe (`stripe_webhook` of backend/app/api/v1/billing/router.py), with the
-- in-memory store of backend/resilience/idempotency.py. The check of the signature and `str.lower`
-- are arguments. `raced` says that another worker has committed the same event between the query
-- and the flush, so that the unique constraint refuses the row.
pub mod Once
use enterprise_fast_api_boil.Base.{
  ℕ, String, Bool, true, false, not, ◌&&◌, ◌||◌, Option, none, some, List, [], ◌∷◌, ◌++◌, map, find,
  any, is_some, ◌==◌, ◌=s◌, if◌then◌else◌,
}
use enterprise_fast_api_boil.Base.Dict.{Dict, text_key, get, put}
use enterprise_fast_api_boil.Base.Outcome.{Outcome, ok, err, Exec, pure, gets, modify, ◌>>=◌, ◌>>◌}
use enterprise_fast_api_boil.Database.{Subscription, PaymentEvent, Db}
use enterprise_fast_api_boil.Server.{
  Server, billing_notification, edit, commit_now, rollback, enqueue,
}
use enterprise_fast_api_boil.Billing.Subscriptions.{last, add_subscription, save_subscription}

-- The payload after `str` and `int`; a key that is absent is empty, or 0.
pub record Payload : Type 0 where
  pub provider : String
  pub event_id : String
  pub event_type : String
  pub signature : String
  pub user_id : ℕ
  pub plan_id : ℕ
  pub subscription_id : ℕ

pub data Reply : Type 0 where
  processed duplicate : Reply
  -- answered with 400
  unsupported_provider invalid_event_id invalid_webhook_signature : Reply

-- One of the two adapters is chosen by the provider.
abbrev pub is_supported : String → Bool
is_supported provider = provider =s "stripe" || provider =s "paypal"

abbrev pub same_event : String → String → PaymentEvent → Bool
same_event provider event_id e = e.provider =s provider && e.provider_event_id =s event_id

abbrev pub event_row : String → Payload → PaymentEvent
event_row provider p = record {
  provider = provider;
  provider_event_id = p.event_id;
  event_type = p.event_type;
}

abbrev pub add_event : String → Payload → Db → Db
add_event provider p db = record db {
  payment_events = db.payment_events ++ (event_row provider p ∷ []);
}

-- The subscription that a failed payment is about: by its identifier, if one is given and known,
-- and else the latest one of the user and the plan.
abbrev pub failed_subscription : Payload → Db → Option Subscription
failed_subscription p db =
    elim (if p.subscription_id == 0
      then none
      else find (λ sub. sub.id == p.subscription_id) db.subscriptions) [
        | some sub ↦ some sub
        | none ↦ last (λ sub. sub.user_id == p.user_id && sub.plan_id == p.plan_id) db.subscriptions
      ]

abbrev pub past_due : Option Subscription → Exec Server (Unit {0})
past_due none = pure tt
past_due (some sub) = do
  save_subscription sub.id (λ row. record row { status = "past_due" })
  enqueue (billing_notification sub.user_id "payment_failed")

unfoldable pub apply_event : String → Payload → Exec Server (Unit {0})
apply_event provider p =
    if p.event_type =s "checkout.session.completed"
    then (do
      new_id ← gets (λ s. s.assign_id (map (λ sub. sub.id) s.work.subscriptions))
      edit (add_subscription new_id p.user_id p.plan_id "active" provider))
    else if p.event_type =s "invoice.payment_failed"
    then (do sub ← gets (λ s. failed_subscription p s.work); past_due sub)
    else pure tt

module _ (join_key : String → String → String) where
  -- `IDEMPOTENCY_STORE.set(f"{provider}:{event_id}", …)`
  abbrev pub remember : String → Payload → Exec Server (Unit {0})
  remember provider p =
      modify (λ s. record s {
        idempotency = put (join_key provider p.event_id) p.event_id s.idempotency;
      })

  -- The part behind the checks of the request.
  unfoldable pub record_event : Bool → String → Payload → Exec Server Reply
  record_event raced provider p = do
    known ← gets (λ s. get (join_key provider p.event_id) s.idempotency)
    existing ← gets (λ s. any (same_event provider p.event_id) s.work.payment_events)
    if is_some known
        then pure duplicate
        else if existing
        then (do remember provider p; pure duplicate)
        else if raced
        then (do modify rollback; remember provider p; pure duplicate)
        else (do
          edit (add_event provider p)
          apply_event provider p
          commit_now
          remember provider p
          pure processed)

  module _ (lower : String → String) (verified : String → Payload → Bool) where
    unfoldable pub stripe_webhook : Bool → Payload → Exec Server Reply
    stripe_webhook raced p =
        let provider = lower p.provider in
        if not (is_supported provider)
        then pure unsupported_provider
        else if p.event_id =s ""
        then pure invalid_event_id
        else if p.signature =s ""
        then pure invalid_webhook_signature
        else if verified provider p
        then record_event raced provider p
        else pure invalid_webhook_signature
