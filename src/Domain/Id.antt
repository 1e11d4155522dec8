-- ===== src/Domain/Id.antt =====
-- src/domain/id.rs: the identifiers, newtypes of `String` and of `u64`, read as what they hold.
use edgelord.Common.{ℕ, String}

abbrev pub TokenId : Type 0
TokenId = String

abbrev pub MarketId : Type 0
MarketId = String

abbrev pub RelationId : Type 0
RelationId = String

abbrev pub ClusterId : Type 0
ClusterId = String

-- A `u64`.
abbrev pub PositionId : Type 0
PositionId = ℕ

-- Milliseconds since the epoch.
abbrev pub Time : Type 0
Time = ℕ
