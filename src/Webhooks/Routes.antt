-- ===== src/Webhooks/Routes.antt =====
-- The routes of backend/app/api/v1/webhooks/router.py, the secret of an endpoint and the list of its
-- deliveries (backend/application/webhooks/service.py, backend/domain/webhooks/repository.py). The
-- order of an `ORDER BY` is the database's.
use enterprise_fast_api_boil.Base.{
  ℕ, String, Bool, Option, none, some, List, take, select, map, ◌==◌, ◌=s◌, if◌then◌else◌,
}
use enterprise_fast_api_boil.Base.Outcome.{
  value_error, http, Outcome, err, Exec, pure, raise, gets, ◌>>=◌,
}
use enterprise_fast_api_boil.Database.{User, WebhookEndpoint, WebhookDelivery}
use enterprise_fast_api_boil.Server.{Server}
use enterprise_fast_api_boil.Webhooks.{
  create_endpoint, list_endpoints, get_endpoint, revoke_endpoint,
}

-- `payload.get("signing_secret") or secrets.token_urlsafe(32)`
abbrev pub secret_or : String → Option String → String
secret_or drawn none = drawn
secret_or drawn (some t) = if t =s "" then drawn else t

-- What is shown of an endpoint; its secret is not. The time of its creation is not kept in the model.
pub record WebhookEndpointOut : Type 0 where
  pub id : ℕ
  pub owner_id : ℕ
  pub name : String
  pub url : String
  pub subscribed_events : List String
  pub is_active : Bool

abbrev pub endpoint_out : WebhookEndpoint → WebhookEndpointOut
endpoint_out endpoint = record {
  id = endpoint.id;
  owner_id = endpoint.owner_id;
  name = endpoint.name;
  url = endpoint.url;
  subscribed_events = endpoint.subscribed_events;
  is_active = endpoint.is_active;
}

-- POST /webhooks/endpoints; what the route accepts has no field for a secret.
unfoldable pub post_endpoint :
    String → User → String → String → List String → Bool → Exec Server WebhookEndpointOut
unfolding create_endpoint
post_endpoint drawn user name url subscribed_events is_active = do
  endpoint ← create_endpoint user.id name url subscribed_events (secret_or drawn none) is_active
  pure (endpoint_out endpoint)

-- GET /webhooks/endpoints
abbrev pub get_endpoints : User → Exec Server (List WebhookEndpointOut)
get_endpoints user = do endpoints ← list_endpoints user.id; pure (map endpoint_out endpoints)

-- `except ValueError`
abbrev pub as_not_found : {A : Type 0} → Outcome A → Outcome A
as_not_found (err (value_error m)) = err (http 404 m)
as_not_found r = r

-- DELETE /webhooks/endpoints/{endpoint_id}
unfoldable pub delete_endpoint : User → ℕ → Exec Server (Unit {0})
unfolding revoke_endpoint
delete_endpoint user endpoint_id s =
    let (r, s') = revoke_endpoint endpoint_id user.id s in (as_not_found r, s')

module _ (newest_first : List WebhookDelivery → List WebhookDelivery) where
  -- `list_for_endpoint`
  abbrev pub list_for_endpoint : ℕ → Exec Server (List WebhookDelivery)
  list_for_endpoint endpoint_id = gets (λ s.
      take 100
        (newest_first (select (λ d. d.endpoint_id == endpoint_id) s.work.webhook_deliveries)))

  abbrev pub of_owner :
      ℕ → List WebhookDelivery → Option WebhookEndpoint → Exec Server (List WebhookDelivery)
  of_owner owner_id deliveries none = raise (value_error "endpoint not found")
  of_owner owner_id deliveries (some endpoint) =
      if endpoint.owner_id == owner_id
      then pure deliveries
      else raise (value_error "endpoint not found")

  -- `list_deliveries`, and so GET /webhooks/endpoints/{endpoint_id}/deliveries
  unfoldable pub list_deliveries : ℕ → ℕ → Exec Server (List WebhookDelivery)
  list_deliveries endpoint_id owner_id = do
    deliveries ← list_for_endpoint endpoint_id
    found ← get_endpoint endpoint_id
    of_owner owner_id deliveries found
