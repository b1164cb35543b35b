-- ===== src/Database/Billing.antt =====
-- The rows of backend/domain/billing/models.py and backend/domain/billing/webhook_models.py.
use enterprise_fast_api_boil.Base.{ℕ, String, Bool, Option}

pub record Plan : Type 0 where
  pub id : ℕ
  pub key : String
  pub name : String
  pub price_cents : ℕ
  pub billing_interval : String
  pub is_active : Bool

pub record Feature : Type 0 where
  pub id : ℕ
  pub key : String
  pub name : String
  pub description : Option String

pub record PlanFeature : Type 0 where
  pub plan_id : ℕ
  pub feature_id : ℕ

pub record Subscription : Type 0 where
  pub id : ℕ
  pub user_id : ℕ
  pub plan_id : ℕ
  pub status : String
  pub provider : String
  pub trial_ends_at : Option ℕ

pub record Invoice : Type 0 where
  pub id : ℕ
  pub subscription_id : Option ℕ
  pub user_id : ℕ
  pub plan_id : ℕ
  pub amount_cents : ℕ
  pub status : String
  pub description : String

pub record Notification : Type 0 where
  pub id : ℕ
  pub user_id : ℕ
  pub kind : String
  pub title : String
  pub body : String
  pub is_read : Bool

pub record PaymentEvent : Type 0 where
  pub provider : String
  pub provider_event_id : String
  pub event_type : String
