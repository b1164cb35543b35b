-- ===== src/Billing.antt =====
-- Billing: backend/domain/billing/service.py, backend/core/security/entitlements.py,
-- backend/app/api/v1/billing/router.py and the billing jobs of backend/common/background_jobs.py.
pub mod Adapters
pub mod Signature
pub mod Entitlement
pub mod Features
pub mod Plans
pub mod Subscriptions
pub mod Checkout
pub mod Notify
pub mod UseCases
pub mod Proration
pub mod PaymentWebhook
