-- ===== src/Database/Hooks.antt =====
-- The rows of backend/domain/webhooks/model.py.
use enterprise_fast_api_boil.Base.{ℕ, String, Bool, Option, List}

pub record WebhookEndpoint : Type 0 where
  pub id : ℕ
  pub owner_id : ℕ
  pub name : String
  pub url : String
  pub subscribed_events : List String
  pub signing_secret : String
  pub is_active : Bool

pub record WebhookDelivery : Type 0 where
  pub id : ℕ
  pub endpoint_id : ℕ
  pub event_type : String
  pub attempt_count : ℕ
  pub last_attempt_at : Option ℕ
  pub last_status_code : Option ℕ
  pub delivered_at : Option ℕ
