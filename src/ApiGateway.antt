-- ===== src/ApiGateway.antt =====
-- services/api-gateway/src: the store of idempotency keys and the rate limiter.
pub mod IdempotencyStore
pub mod TokenBucket
