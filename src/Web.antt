-- ===== src/Web.antt =====
-- apps/web/lib: the grants of an agent's key and the arithmetic of swaps.
pub mod AgentGrants
pub mod Swap
