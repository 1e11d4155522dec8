-- ===== src/State.antt =====
-- src/application/state.rs: `AppState`, shared by the event loop, the execution tasks and the
-- operator. Every lock is held within one operation, so an operation is one step; interleavings of
-- these steps are in Orchestration.
mod Defs
pub mod Limits
pub mod Reservation
pub use Defs.*
unfoldable pub use Defs.{
  set_risk_limit, try_lock_execution, release_execution, try_reserve_exposure, release_exposure,
  activate_circuit_breaker, reset_circuit_breaker, active_positions, new, as_str,
}
