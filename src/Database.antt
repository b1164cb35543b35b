-- ===== src/Database.antt =====
-- The tables of backend/domain (users, rbac, api_keys, billing, webhooks, products, audit_log), as lists of rows in
-- insertion order.
mod Accounts
mod Billing
mod Hooks
mod Catalog
pub use Accounts.*
pub use Billing.*
pub use Hooks.*
pub use Catalog.*
use enterprise_fast_api_boil.Base.{List}

pub record Db : Type 0 where
  pub users : List User
  pub roles : List Role
  pub permissions : List Permission
  pub role_permissions : List RolePermission
  pub user_roles : List UserRole
  pub api_keys : List ApiKey
  pub plans : List Plan
  pub features : List Feature
  pub plan_features : List PlanFeature
  pub subscriptions : List Subscription
  pub invoices : List Invoice
  pub notifications : List Notification
  pub payment_events : List PaymentEvent
  pub webhook_endpoints : List WebhookEndpoint
  pub webhook_deliveries : List WebhookDelivery
  pub products : List Product
  pub audit_log_entries : List AuditLogEntry
