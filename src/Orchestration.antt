-- ===== src/Orchestration.antt =====
-- src/application/orchestration: from a market event to an execution and its aftermath.
pub mod Slippage
pub mod Record
pub mod World
pub mod Opportunity
pub mod Execution
pub mod Event
pub mod Feed
