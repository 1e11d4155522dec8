-- ===== src/Orchestration/Opportunity/Handle.antt =====
-- The handler. `Config` holds what it is called with beside the opportunity and the state: whether
-- there is an executor, `dry_run`, what the statistics recorder replies, and the printing of a risk
-- error, which the crate `thiserror` generates.
use edgelord.Common.{ℕ, Bool, false, not, [], ◌∷◌, String, Option, none, some, if◌then◌else◌}
use edgelord.Money.{Decimal, ◌<?◌}
use edgelord.Domain.Opportunity.{Opportunity, edge, expected_profit}
use edgelord.Risk.{
  RiskError, slippage_too_high, RiskCheckResult, approved, rejected, check, amount_of,
}
use edgelord.State.{AppState, try_lock_execution, release_execution, release_exposure}
use edgelord.Orchestration.Slippage.{get_max_slippage}
use edgelord.Orchestration.World.{
  World, RecordedOpportunity, record_opportunity, opportunity_detected, risk_rejected, call, notify,
  spawn,
}

pub record Config (D : Type 0) : Type 0 where
  pub has_executor : Bool
  pub dry_run : Bool
  pub reply : RecordedOpportunity D → Option ℕ
  pub show : RiskError D → String

module _ {D : Type 0} ⦃d : Decimal D⦄ where
  abbrev pub recorded : Opportunity D → Bool → Option String → RecordedOpportunity D
  recorded o executed reason = record {
    strategy = o.strategy;
    market_ids = o.market_id ∷ [];
    edge = edge o;
    expected_profit = expected_profit o;
    executed = executed;
    rejected_reason = reason;
  }

  abbrev pub on_state : (AppState D → AppState D) → World D → World D
  on_state f w = record w { state = f w.state }

  -- The error if the slippage is known and above the limit.
  unfoldable pub slippage_error : Opportunity D → World D → Option (RiskError D)
  slippage_error o w = elim (get_max_slippage o w.cache) [
    | none ↦ none
    | some slippage ↦
        let top = w.state.risk_limits.max_slippage in
        if top <? slippage then some (slippage_too_high slippage top) else none
  ]

  -- A refusal for slippage.
  unfoldable pub refuse_slippage : Opportunity D → RiskError D → World D → World D
  refuse_slippage o e w = notify (risk_rejected o.market_id e) (
      call (record_opportunity (recorded o false (some "slippage_too_high")))
        (on_state (release_execution o.market_id) w))

  -- The arm for `Approved`.
  unfoldable pub proceed : Config D → Opportunity D → World D → World D
  proceed c o w =
      let r = recorded o (not c.dry_run) none in
      let v = call (record_opportunity r) w in
      let undone =
        on_state (λ s. release_execution o.market_id (release_exposure (amount_of o) s)) v in
      if c.dry_run
      then undone
      else if c.has_executor
      then spawn (record { opportunity = o; opportunity_id = c.reply r }) v
      else undone

  -- The arm for `Rejected`.
  unfoldable pub refuse_risk : Config D → Opportunity D → RiskError D → World D → World D
  refuse_risk c o e w = notify (risk_rejected o.market_id e) (
      on_state (release_execution o.market_id)
        (call (record_opportunity (recorded o false (some (c.show e)))) w))

  -- The `match` on the risk check.
  unfoldable pub decide :
      Config D → Opportunity D → World D → AppState D × RiskCheckResult D → World D
  unfolding proceed refuse_risk
  decide c o w (s, approved) = proceed c o (record w { state = s })
  decide c o w (s, rejected e) = refuse_risk c o e (record w { state = s })

  -- What follows once the market is locked.
  unfoldable pub handle_locked : Config D → Opportunity D → World D → World D
  unfolding slippage_error refuse_slippage decide
  handle_locked c o w = elim (slippage_error o w) [
    | some e ↦ refuse_slippage o e w
    | none ↦ let v = notify (opportunity_detected o) w in decide c o v (check o v.state)
  ]

  unfoldable pub handle_opportunity : Config D → Opportunity D → World D → World D
  unfolding handle_locked
  handle_opportunity c o w =
      let (s, locked) = try_lock_execution o.market_id w.state in
      let v = record w { state = s } in if locked then handle_locked c o v else v
