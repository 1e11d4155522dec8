-- ===== src/State/Defs.antt =====
-- The state and its operations.
use edgelord.Common.{
  ℕ, Bool, true, false, not, ◌||◌, List, [], map, String, Option, none, some, Result, ok, err,
  if◌then◌else◌, set_insert, set_remove, string_eq, filter, length,
}
use edgelord.Money.{Decimal, ◌⊕◌, ◌⊖◌, ◌<?◌, ◌≤?◌}
use edgelord.Domain.Id.{MarketId}
use edgelord.Domain.Position.{PositionStatus, status_is_closed, expected_profit}
use edgelord.Tracker
use edgelord.Tracker.{Tracker, total_exposure}

pub record RiskLimits (D : Type 0) : Type 0 where
  pub max_position_per_market : D
  pub max_total_exposure : D
  pub min_profit_threshold : D
  pub max_slippage : D
  pub execution_timeout_secs : ℕ

pub data RiskLimitKind : Type 0 where
  max_position_per_market max_total_exposure min_profit_threshold max_slippage : RiskLimitKind

unfoldable pub as_str : RiskLimitKind → String
as_str max_position_per_market = "max_position"
as_str max_total_exposure = "max_exposure"
as_str min_profit_threshold = "min_profit"
as_str max_slippage = "max_slippage"

pub record RiskLimitUpdateError : Type 0 where
  pub reason : String

pub record AppState (D : Type 0) : Type 0 where
  pub positions : Tracker D
  pub risk_limits : RiskLimits D
  pub circuit_breaker : Bool
  pub circuit_breaker_reason : Option String
  pub pending_executions : List MarketId
  pub pending_exposure : D

module _ {D : Type 0} ⦃d : Decimal D⦄ where
  unfoldable pub default_limits : RiskLimits D
  default_limits = record {
    max_position_per_market = d.scaled 1000 0;
    max_total_exposure = d.scaled 10000 0;
    min_profit_threshold = d.scaled 5 2;
    max_slippage = d.scaled 2 2;
    execution_timeout_secs = 30;
  }

  unfoldable pub new : RiskLimits D → AppState D
  unfolding Tracker.init
  new limits = record {
    positions = Tracker.init;
    risk_limits = limits;
    circuit_breaker = false;
    circuit_breaker_reason = none;
    pending_executions = [];
    pending_exposure = d.nought;
  }

  -- The first `match` of `set_risk_limit`: the reason for a refusal.
  unfoldable pub refusal : RiskLimitKind → D → Option String
  refusal max_position_per_market v =
      if v ≤? d.nought then some "value must be greater than 0" else none
  refusal max_total_exposure v = if v ≤? d.nought then some "value must be greater than 0" else none
  refusal min_profit_threshold v = if v <? d.nought then some "value must be 0 or greater" else none
  refusal max_slippage v =
      if (v <? d.nought) || (d.one <? v) then some "value must be between 0 and 1" else none

  -- The second.
  unfoldable pub with_limit : RiskLimitKind → D → RiskLimits D → RiskLimits D
  with_limit max_position_per_market v l = record l { max_position_per_market = v }
  with_limit max_total_exposure v l = record l { max_total_exposure = v }
  with_limit min_profit_threshold v l = record l { min_profit_threshold = v }
  with_limit max_slippage v l = record l { max_slippage = v }

  unfoldable pub set_risk_limit :
      RiskLimitKind → D → AppState D → AppState D × Result (RiskLimits D) RiskLimitUpdateError
  unfolding refusal with_limit
  set_risk_limit kind v s = elim (refusal kind v) [
    | some reason ↦ (s, err (record { reason = reason }))
    | none ↦
        let limits = with_limit kind v s.risk_limits in
        (record s { risk_limits = limits }, ok limits)
  ]

  unfoldable pub activate_circuit_breaker : String → AppState D → AppState D
  activate_circuit_breaker reason s = record s {
    circuit_breaker = true;
    circuit_breaker_reason = some reason;
  }

  unfoldable pub reset_circuit_breaker : AppState D → AppState D
  reset_circuit_breaker s = record s { circuit_breaker = false; circuit_breaker_reason = none }

  abbrev pub exposure : AppState D → D
  exposure s = total_exposure s.positions.positions

  -- Whether the market was not locked before, and the state in which it is.
  unfoldable pub try_lock_execution : MarketId → AppState D → AppState D × Bool
  try_lock_execution m s =
      let (locked, new) = set_insert m s.pending_executions in
      (record s { pending_executions = locked }, new)

  unfoldable pub release_execution : MarketId → AppState D → AppState D
  release_execution m s = record s { pending_executions = set_remove m s.pending_executions }

  unfoldable pub pending_execution_count : AppState D → ℕ
  pending_execution_count s = length s.pending_executions

  unfoldable pub try_reserve_exposure : D → AppState D → AppState D × Bool
  try_reserve_exposure amount s =
      if s.risk_limits.max_total_exposure <? (exposure s ⊕ s.pending_exposure ⊕ amount)
      then (s, false)
      else (record s { pending_exposure = s.pending_exposure ⊕ amount }, true)

  unfoldable pub release_exposure : D → AppState D → AppState D
  release_exposure amount s =
      let pending = s.pending_exposure ⊖ amount in
      record s { pending_exposure = if pending <? d.nought then d.nought else pending }

pub data RuntimePositionStatus : Type 0 where
  opened partial_fill closed : RuntimePositionStatus

pub record RuntimePosition (D : Type 0) : Type 0 where
  pub market_id : MarketId
  pub status : RuntimePositionStatus
  pub entry_cost : D
  pub expected_profit : D

module _ {D : Type 0} ⦃d : Decimal D⦄ where
  unfoldable pub runtime_status : PositionStatus D → RuntimePositionStatus
  runtime_status PositionStatus.opened = RuntimePositionStatus.opened
  runtime_status (PositionStatus.partial_fill f m) = RuntimePositionStatus.partial_fill
  runtime_status (PositionStatus.closed p) = RuntimePositionStatus.closed

  -- What the operator sees: the positions that are not closed, partial fills included.
  unfoldable pub active_positions : AppState D → List (RuntimePosition D)
  unfolding runtime_status
  active_positions s =
      map
        (λ p. record {
          market_id = p.market_id;
          status = runtime_status p.status;
          entry_cost = p.entry_cost;
          expected_profit = expected_profit p;
        })
        (filter (λ p. not (status_is_closed p.status)) s.positions.positions)
