-- ===== src/Exchange.antt =====
-- src/infrastructure/exchange and the ports of an exchange's market data.
pub mod Event
pub mod Reconnecting
pub mod Pool
