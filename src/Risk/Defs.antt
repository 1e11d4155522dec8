-- ===== src/Risk/Defs.antt =====
-- `RiskError`, `RiskCheckResult` and `RiskManager`.
use edgelord.Common.{
  Bool, true, false, String, Option, none, some, if◌then◌else◌, ◌==◌, string_eq, filter,
}
use edgelord.Money.{Decimal, ◌⊕◌, ◌⊗◌, ◌<?◌, sum}
use edgelord.Domain.Id.{MarketId}
use edgelord.Domain.Opportunity.{Opportunity, total_cost, expected_profit}
use edgelord.Tracker.{open_positions, costs}
use edgelord.State.{AppState, exposure, try_reserve_exposure, release_exposure}

pub data RiskError (D : Type 0) : Type 0 where
  circuit_breaker_active : (reason : String) → RiskError D
  position_limit_exceeded : (market_id : MarketId) (current limit : D) → RiskError D
  exposure_limit_exceeded : (current additional limit : D) → RiskError D
  profit_below_threshold : (expected threshold : D) → RiskError D
  slippage_too_high : (actual max : D) → RiskError D

pub data RiskCheckResult (D : Type 0) : Type 0 where
  approved : RiskCheckResult D
  rejected : RiskError D → RiskCheckResult D

abbrev pub unwrap_or : String → Option String → String
unwrap_or other none = other
unwrap_or other (some s) = s

module _ {D : Type 0} where
  abbrev pub is_approved : RiskCheckResult D → Bool
  is_approved approved = true
  is_approved (rejected e) = false

  abbrev pub rejection_error : RiskCheckResult D → Option (RiskError D)
  rejection_error approved = none
  rejection_error (rejected e) = some e

  -- `none` is `Ok(())`.
  unfoldable pub check_circuit_breaker : AppState D → Option (RiskError D)
  check_circuit_breaker s =
      if s.circuit_breaker
      then some (circuit_breaker_active (unwrap_or "unknown" s.circuit_breaker_reason))
      else none

module _ {D : Type 0} ⦃d : Decimal D⦄ where
  -- What an opportunity adds to the exposure.
  unfoldable pub amount_of : Opportunity D → D
  amount_of o = total_cost o ⊗ o.volume

  unfoldable pub check_profit_threshold : AppState D → Opportunity D → Option (RiskError D)
  check_profit_threshold s o =
      let threshold = s.risk_limits.min_profit_threshold in
      let expected = expected_profit o in
      if expected <? threshold then some (profit_below_threshold expected threshold) else none

  -- The entry costs of the open positions in a market.
  unfoldable pub market_exposure : MarketId → AppState D → D
  market_exposure m s =
      sum (costs (filter (λ p. p.market_id == m) (open_positions s.positions.positions)))

  unfoldable pub check_position_limit : AppState D → Opportunity D → Option (RiskError D)
  check_position_limit s o =
      let limit = s.risk_limits.max_position_per_market in
      let current = market_exposure o.market_id s in
      if limit <? (current ⊕ amount_of o)
      then some (position_limit_exceeded o.market_id current limit)
      else none

  -- The last step of `check`: the reservation, and what is reported when it fails.
  unfoldable pub reserve : Opportunity D → AppState D → AppState D × RiskCheckResult D
  reserve o s =
      let (t, reserved) = try_reserve_exposure (amount_of o) s in
      if reserved then (t, approved) else (
        t,
        rejected
            (exposure_limit_exceeded (exposure t) (amount_of o) t.risk_limits.max_total_exposure),
      )

  -- The early returns of `check`, in order.
  abbrev or_rejected :
      AppState D
      → Option (RiskError D)
      → AppState D × RiskCheckResult D
      → AppState D × RiskCheckResult D
  or_rejected s (some e) next = (s, rejected e)
  or_rejected s none next = next

  unfoldable pub check : Opportunity D → AppState D → AppState D × RiskCheckResult D
  unfolding check_circuit_breaker check_profit_threshold check_position_limit reserve
  check o s = or_rejected s (check_circuit_breaker s) (
      or_rejected s (check_profit_threshold s o)
        (or_rejected s (check_position_limit s o) (reserve o s)))

  unfoldable pub release_for : Opportunity D → AppState D → AppState D
  release_for o s = release_exposure (amount_of o) s
