-- ===== src/Detection.antt =====
-- src/application/cluster: arbitrage across related markets.
pub mod Detector
pub mod Service
pub mod Drain
pub mod Found
pub mod Legs
