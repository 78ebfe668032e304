-- ===== src/ServiceKit.antt =====
-- packages/service-kit: the pieces that the backend services share.
pub mod CircuitBreaker
pub mod Retry
pub mod Budget
pub mod RpcPool
pub mod Publisher
