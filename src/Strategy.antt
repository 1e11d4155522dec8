-- ===== src/Strategy.antt =====
-- src/application/strategy, src/port/inbound/strategy.rs: detection of opportunities.
pub mod Context
pub mod SingleCondition
pub mod Rebalancing
pub mod Soundness
pub mod Engine
pub mod Routing
pub mod Combinatorial
