-- ===== src/Orchestration/Opportunity.antt =====
-- src/application/orchestration/opportunity.rs: `handle_opportunity`.
pub mod Handle
mod Effects
unfoldable pub use Handle.{handle_opportunity}
pub use Handle.{Config}
pub use Effects.*
