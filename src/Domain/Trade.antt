-- ===== src/Domain/Trade.antt =====
-- src/domain/trade.rs: what came of an execution.
use edgelord.Common.{Bool, true, false, List, [], String}
use edgelord.Domain.Id.{TokenId}

pub record Fill : Type 0 where
  pub token_id : TokenId
  pub order_id : String

pub record Failure : Type 0 where
  pub token_id : TokenId
  pub error : String

pub data TradeResult : Type 0 where
  success : (fills : List Fill) → TradeResult
  partial : (fills : List Fill) (failures : List Failure) → TradeResult
  failed : (reason : String) → TradeResult

abbrev pub is_success : TradeResult → Bool
is_success (success f) = true
is_success (partial f g) = false
is_success (failed r) = false

abbrev pub is_partial : TradeResult → Bool
is_partial (success f) = false
is_partial (partial f g) = true
is_partial (failed r) = false

abbrev pub is_failed : TradeResult → Bool
is_failed (success f) = false
is_failed (partial f g) = false
is_failed (failed r) = true

abbrev pub fills_of : TradeResult → List Fill
fills_of (success f) = f
fills_of (partial f g) = f
fills_of (failed r) = []

abbrev pub failures_of : TradeResult → List Failure
failures_of (success f) = []
failures_of (partial f g) = g
failures_of (failed r) = []
