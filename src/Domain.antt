-- ===== src/Domain.antt =====
-- src/domain: the entities and value objects. Identifiers are newtypes of `String` and are read as
-- their text; a point in time is a number of milliseconds.
pub mod Id
pub mod Error
pub mod Book
pub mod Market
pub mod Opportunity
pub mod Position
pub mod Trade
pub mod Relation
pub mod Cluster
