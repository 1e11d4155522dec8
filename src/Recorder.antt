-- ===== src/Recorder.antt =====
-- src/adapter/outbound/sqlite/recorder.rs over the tables of sqlite/database/model.rs and of the
-- migration create_stats: the statistics that are kept of opportunities and trades.
pub mod Defs
pub mod Rows
pub mod Query
pub mod Totals
pub mod Effects
pub mod Journal
pub mod Closing
pub mod Agreement
pub mod Summary
pub mod Opening
pub mod Lost
