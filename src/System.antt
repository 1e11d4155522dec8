-- ===== src/System.antt =====
-- The event loop, the execution tasks and the operator over one `AppState`, interleaved in any order
-- at the granularity of its locks (src/application/orchestration, src/application/state.rs).
pub mod Steps
pub mod Weights
pub mod Locks
pub mod Settling
pub mod Balance
pub mod Budget
pub mod Refinement
pub mod Events
