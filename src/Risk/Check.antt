-- ===== src/Risk/Check.antt =====
-- When `check` approves, and what it does to the state.
use edgelord.Common.{◌≡◌, ◌≢◌, ◌↔◌, ◌⊎◌, false, arith}
use edgelord.Money.{Decimal, ◌⊕◌, ◌≼◌}
use edgelord.Domain.Opportunity.{Opportunity, expected_profit}
use edgelord.State.{AppState, exposure, try_reserve_exposure}
use edgelord.Risk.Defs.{approved, check, amount_of, market_exposure}

module _ {D : Type 0} ⦃d : Decimal D⦄ where
  pub check-approved_iff :
      (o : Opportunity D) (s : AppState D)
      → ((check o s).1 ≡ approved) ↔ (
          (s.circuit_breaker ≡ false)
          × (s.risk_limits.min_profit_threshold ≼ expected_profit o)
          × ((market_exposure o.market_id s ⊕ amount_of o) ≼ s.risk_limits.max_position_per_market)
          × (((exposure s ⊕ s.pending_exposure) ⊕ amount_of o) ≼ s.risk_limits.max_total_exposure))
  unfolding check try_reserve_exposure
  check-approved_iff o s = ground arith

  -- An approval reserves the cost of the opportunity and changes nothing else; a rejection changes
  -- nothing.
  pub check_effect :
      (o : Opportunity D) (s : AppState D)
      → (((check o s).1 ≡ approved)
          × ((check o s).0 ≡ record s { pending_exposure = s.pending_exposure ⊕ amount_of o }))
        ⊎ (((check o s).1 ≢ approved) × ((check o s).0 ≡ s))
  unfolding check try_reserve_exposure
  check_effect o s = ground arith
