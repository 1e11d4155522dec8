-- ===== src/Polymarket.antt =====
-- src/adapter/outbound/polymarket: the filters in front of the application, and the executor.
pub mod Filter
pub mod Dedup
pub mod Capacity
pub mod Eviction
pub mod Executor
pub mod Stream
