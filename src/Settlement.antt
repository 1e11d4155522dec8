-- ===== src/Settlement.antt =====
-- src/application/position/manager.rs: closing positions, one by one and for a settled market.
mod Defs
pub mod CloseAll
pub use Defs.{
  CloseReason, settlement, manual_exit, stop_loss, take_profit, expired, system_exit, CloseResult,
  TradeCloseEvent, Progress,
}
unfoldable pub use Defs.{
  close_position, close_each, close_all_for_market, recorded, close_one, calculate_arbitrage_pnl,
  targets, is_target, reason_text,
}
