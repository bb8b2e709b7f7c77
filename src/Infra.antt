-- ===== src/Infra.antt =====
-- bee_infra: rate limiting, retries, and polling.
pub mod RateLimiter
pub mod Retry
pub mod Delivery
pub mod Poll
