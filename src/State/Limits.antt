-- ===== src/State/Limits.antt =====
-- The limits stay well formed whatever the operator sets.
use edgelord.Common.{arith}
use edgelord.Money.{Decimal, ◌≼◌, ◌≺◌}
use edgelord.State.Defs.{
  RiskLimits, RiskLimitKind, max_position_per_market, max_total_exposure, min_profit_threshold,
  max_slippage, AppState, set_risk_limit,
}

module _ {D : Type 0} ⦃d : Decimal D⦄ where
  pub record AreValid (l : RiskLimits D) : Type 0 where
    pub position_pos : d.nought ≺ l.max_position_per_market
    pub exposure_pos : d.nought ≺ l.max_total_exposure
    pub profit_nonneg : d.nought ≼ l.min_profit_threshold
    pub slippage_nonneg : d.nought ≼ l.max_slippage
    pub slippage-le-one : l.max_slippage ≼ d.one

  -- Well-formed limits stay well formed under every update, accepted or refused.
  pub set_risk_limit-AreValid :
      (kind : RiskLimitKind) (v : D) (s : AppState D)
      → AreValid s.risk_limits
      → AreValid (set_risk_limit kind v s).0.risk_limits
  unfolding set_risk_limit
  set_risk_limit-AreValid max_position_per_market v s h = ground arith
  set_risk_limit-AreValid max_total_exposure v s h = ground arith
  set_risk_limit-AreValid min_profit_threshold v s h = ground arith
  set_risk_limit-AreValid max_slippage v s h = ground arith
