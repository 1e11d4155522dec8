-- ===== src/Domain/Market.antt =====
-- src/domain/market.rs: markets and the registry that finds them. Lower-casing of text is the
-- standard library's and a parameter.
pub mod Registry
pub mod Lookup
