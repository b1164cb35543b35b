-- ===== src/Tokens.antt =====
-- backend/core/security/token_store.py over Redis (backend/utils/redis_client.py).
pub mod Redis
pub mod Store
pub mod Revocation
