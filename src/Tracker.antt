-- ===== src/Tracker.antt =====
-- src/application/cache/position.rs: `PositionTracker`, the positions in memory.
mod Defs
pub mod Exposure
pub use Defs.{Tracker}
unfoldable pub use Defs.{
  init, next_id, add, open_positions, total_exposure, open_count, get, close_first, close,
  closed_positions, costs,
}
