-- ===== src/Governor.antt =====
-- src/infrastructure/governor: the adaptive governor.
pub mod Latency
pub mod Window
pub mod Metrics
pub mod Scaling
