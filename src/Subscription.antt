-- ===== src/Subscription.antt =====
-- src/infrastructure/subscription: which tokens of which markets are subscribed to.
pub mod Defs
pub mod Expand
pub mod Contract
