-- ===== src/LifecycleService.antt =====
-- services/lifecycle-service/src: the account as Horizon shows it, its cache, the cleanup plan and the cleanup
-- transactions.
pub mod Horizon
pub mod AccountCache
pub mod Planner
pub mod Builder
