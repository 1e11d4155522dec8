-- ===== src/Strategy/Soundness.antt =====
-- The opportunities that the strategies on single markets report.
mod Arbitrage
mod Single
mod Rebalance
pub use Arbitrage.{IsQuoted, IsArbitrage}
pub use Single.{detect_single_condition-IsArbitrage}
pub use Rebalance.{detect_rebalancing-IsArbitrage}
