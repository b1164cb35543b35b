-- ===== src/Webhooks.antt =====
-- Outgoing webhooks: backend/application/webhooks/service.py and backend/domain/webhooks/repository.py.
-- What the endpoint answers is an argument: a status code, or `none` where the call fails.
pub mod Attempts
pub mod Routes
use enterprise_fast_api_boil.Base.{
  ℕ, zero, suc, ◌+◌, String, Bool, true, false, not, ◌&&◌, Option, none, some, List, [], ◌∷◌, ◌++◌,
  map, select, find, take, contains, ltb, leb, ◌==◌, if◌then◌else◌,
}
use enterprise_fast_api_boil.Base.Outcome.{
  value_error, Outcome, ok, err, Exec, pure, raise, gets, scalar_one_or_none, ◌>>=◌, ◌>>◌,
}
use enterprise_fast_api_boil.Database.{WebhookEndpoint, WebhookDelivery, Db}
use enterprise_fast_api_boil.Server.{Server, deliver_webhook, edit, commit_now, enqueue}

-- `WebhookService.create_endpoint`; an absent or empty secret has been replaced by a drawn one.
unfoldable pub create_endpoint :
    ℕ → String → String → List String → String → Bool → Exec Server WebhookEndpoint
create_endpoint owner_id name url subscribed_events signing_secret is_active = do
  id ← gets (λ s. s.assign_id (map (λ e. e.id) s.work.webhook_endpoints))
  let endpoint : WebhookEndpoint = record {
    id = id;
    owner_id = owner_id;
    name = name;
    url = url;
    subscribed_events = subscribed_events;
    signing_secret = signing_secret;
    is_active = is_active;
  }
  edit (λ db. record db { webhook_endpoints = db.webhook_endpoints ++ (endpoint ∷ []) })
  pure endpoint

unfoldable pub list_endpoints : ℕ → Exec Server (List WebhookEndpoint)
list_endpoints owner_id =
    gets
      (λ s. take 100 (select (λ e. e.owner_id == owner_id && e.is_active) s.work.webhook_endpoints))

-- `get_by_id` of the endpoints.
abbrev pub get_endpoint : ℕ → Exec Server (Option WebhookEndpoint)
get_endpoint id s = (scalar_one_or_none (select (λ e. e.id == id) s.work.webhook_endpoints), s)

unfoldable pub update_endpoint :
    ℕ → (WebhookEndpoint → WebhookEndpoint) → List WebhookEndpoint → List WebhookEndpoint
update_endpoint i f [] = []
update_endpoint i f (e ∷ es) =
    if e.id == i then f e ∷ update_endpoint i f es else e ∷ update_endpoint i f es

abbrev pub revoke_owned : ℕ → Option WebhookEndpoint → Exec Server (Unit {0})
revoke_owned owner_id none = raise (value_error "endpoint not found")
revoke_owned owner_id (some endpoint) =
    if endpoint.owner_id == owner_id
    then edit (λ db. record db {
      webhook_endpoints =
          update_endpoint endpoint.id (λ e. record e { is_active = false }) db.webhook_endpoints;
    })
    else raise (value_error "endpoint not found")

-- `revoke_endpoint`
unfoldable pub revoke_endpoint : ℕ → ℕ → Exec Server (Unit {0})
revoke_endpoint endpoint_id owner_id = do
  found ← get_endpoint endpoint_id
  revoke_owned owner_id found

-- `create_delivery`, followed by the job that `dispatch` puts on the queue.
abbrev pub create_delivery : String → WebhookEndpoint → Exec Server (Unit {0})
create_delivery event_type endpoint = do
  id ← gets (λ s. s.assign_id (map (λ d. d.id) s.work.webhook_deliveries))
  edit (λ db. record db {
    webhook_deliveries =
        db.webhook_deliveries
        ++ (record {
          id = id;
          endpoint_id = endpoint.id;
          event_type = event_type;
          attempt_count = 0;
          last_attempt_at = none;
          last_status_code = none;
          delivered_at = none;
        }
            ∷ []);
  })
  enqueue (deliver_webhook id)

unfoldable pub create_deliveries : String → List WebhookEndpoint → Exec Server (Unit {0})
create_deliveries event_type [] = pure tt
create_deliveries event_type (e ∷ es) = do
  create_delivery event_type e
  create_deliveries event_type es

-- `dispatch`: a delivery for every active endpoint that is subscribed to the type of the event.
unfoldable pub dispatch : String → Exec Server (Unit {0})
unfolding create_deliveries
dispatch event_type = do
  endpoints ← gets (λ s.
      select (λ e. e.is_active && contains event_type e.subscribed_events) s.work.webhook_endpoints)
  create_deliveries event_type endpoints

unfoldable pub update_delivery :
    ℕ → (WebhookDelivery → WebhookDelivery) → List WebhookDelivery → List WebhookDelivery
update_delivery i f [] = []
update_delivery i f (d ∷ ds) =
    if d.id == i then f d ∷ update_delivery i f ds else d ∷ update_delivery i f ds

-- 200 <= status < 300
abbrev pub is_success : ℕ → Bool
is_success status = leb 200 status && ltb status 300

-- The row after an attempt.
abbrev pub attempted : ℕ → Option ℕ → WebhookDelivery → WebhookDelivery
attempted now none d = record d { attempt_count = d.attempt_count + 1; last_attempt_at = some now }
attempted now (some status) d = record d {
  attempt_count = d.attempt_count + 1;
  last_attempt_at = some now;
  last_status_code = some status;
  delivered_at = if is_success status then some now else d.delivered_at;
}

-- `response.status_code >= 300`, or the call failed.
abbrev pub is_failure : Option ℕ → Bool
is_failure none = true
is_failure (some status) = leb 300 status

abbrev pub attempt : ℕ → Option ℕ → WebhookDelivery → Exec Server (Unit {0})
attempt now answer d = do
  edit (λ db. record db {
    webhook_deliveries = update_delivery d.id (attempted now answer) db.webhook_deliveries;
  })
  commit_now
  if is_failure answer && ltb (d.attempt_count + 1) 3
      then enqueue (deliver_webhook d.id)
      else pure tt

abbrev pub attempt_active :
    ℕ → Option ℕ → WebhookDelivery → Option WebhookEndpoint → Exec Server (Unit {0})
attempt_active now answer d none = pure tt
attempt_active now answer d (some endpoint) =
    if endpoint.is_active then attempt now answer d else pure tt

abbrev pub attempt_found : ℕ → Option ℕ → Option WebhookDelivery → Exec Server (Unit {0})
attempt_found now answer none = pure tt
attempt_found now answer (some d) = do
  endpoint ← gets (λ s. find (λ e. e.id == d.endpoint_id) s.work.webhook_endpoints)
  attempt_active now answer d endpoint

-- The job handler `deliver_webhook`.
unfoldable pub handle_delivery : ℕ → Option ℕ → ℕ → Exec Server (Unit {0})
handle_delivery now answer delivery_id = do
  found ←
      (λ s. (scalar_one_or_none (select (λ d. d.id == delivery_id) s.work.webhook_deliveries), s))
  attempt_found now answer found
