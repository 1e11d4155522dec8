-- ===== src/Risk.antt =====
-- src/application/risk/manager.rs: the checks that an opportunity passes before it is executed.
mod Defs
pub mod Check
pub use Defs.{
  RiskError, circuit_breaker_active, position_limit_exceeded, exposure_limit_exceeded,
  profit_below_threshold, slippage_too_high, RiskCheckResult, approved, rejected,
}
unfoldable pub use Defs.{check, amount_of, market_exposure, release_for}
