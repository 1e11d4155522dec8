-- ===== src/Orchestration/Execution.antt =====
-- src/application/orchestration/execution.rs: the spawned execution of an opportunity.
pub mod Finish
pub mod Effects
pub use Finish.{ExecutionOutcome, done, refused, timed_out, Exchange}
unfoldable pub use Finish.{finish, settle, cancel_failed}
