-- ===== src/Resilience.antt =====
-- backend/resilience: rate limiting, retries, the circuit breaker and the idempotency store.
pub mod RateLimit
pub mod Retry
pub mod CircuitBreaker
