-- ===== src/Orchestration/Execution/Finish.antt =====
-- What the task of `spawn_execution` does once `timeout(execute_arbitrage)` has returned.
use edgelord.Common.{
  ℕ, Bool, not, List, [], ◌∷◌, map, String, Option, none, some, if◌then◌else◌, any,
}
use edgelord.Money.{Decimal}
use edgelord.Domain.Id.{Time}
use edgelord.Domain.Opportunity.{Opportunity, expected_profit}
use edgelord.Domain.Trade.{TradeResult, Fill, Failure, success, partial, failed}
use edgelord.Risk.{amount_of}
use edgelord.State.{exposure, release_execution, release_exposure}
use edgelord.Orchestration.Record.{record_position, record_partial_position}
use edgelord.Orchestration.World.{
  World, Task, TradeOpenEvent, record_trade_open, update_peak_exposure, execution_completed,
  execution_failed, call, notify,
}

-- `Ok(Ok(_))`, `Ok(Err(_))` with its text, and `Err(_)` of the timeout.
pub data ExecutionOutcome : Type 0 where
  done : TradeResult → ExecutionOutcome
  refused : String → ExecutionOutcome
  timed_out : ExecutionOutcome

-- The executor's answer to `cancel` of an order, and the recorder's to `record_trade_open`.
pub record Exchange (D : Type 0) : Type 0 where
  pub cancel : String → Bool
  pub trade_reply : TradeOpenEvent D → Option ℕ

module _ {D : Type 0} ⦃d : Decimal D⦄ where
  abbrev pub trade_event : Opportunity D → ℕ → TradeOpenEvent D
  trade_event o id = record {
    opportunity_id = id;
    strategy = o.strategy;
    market_ids = o.market_id ∷ [];
    legs =
        map
          (λ leg. record {
            token_id = leg.token_id;
            side = "buy";
            price = leg.ask_price;
            size = o.volume;
          })
          o.legs;
    size = o.volume;
    expected_profit = expected_profit o;
  }

  abbrev pub release : Opportunity D → World D → World D
  release o w = record w { state = release_exposure (amount_of o) w.state }

  abbrev pub with_position : Time → Opportunity D → Option ℕ → World D → World D
  with_position now o trade_id w = record w { state = record_position now o trade_id w.state }

  -- The trade is recorded only under a recorded opportunity.
  unfoldable pub record_trade : Exchange D → Task D → World D → World D × Option ℕ
  record_trade x task w = elim task.opportunity_id [
    | none ↦ (w, none)
    | some id ↦
        let e = trade_event task.opportunity id in (call (record_trade_open e) w, x.trade_reply e)
  ]

  unfoldable pub settle_success : Exchange D → Time → Task D → World D → World D
  unfolding record_trade
  settle_success x now task w =
      let (v, trade_id) = record_trade x task w in
      let u = release task.opportunity (with_position now task.opportunity trade_id v) in
      call (update_peak_exposure (exposure u.state)) u

  -- Every filled leg is tried, and one failure is enough.
  unfoldable pub cancel_failed : Exchange D → List Fill → Bool
  cancel_failed x fills = any (λ f. not (x.cancel f.order_id)) fills

  unfoldable pub settle_partial :
      Exchange D → Time → Task D → List Fill → List Failure → World D → World D
  settle_partial x now task fills failures w =
      let o = task.opportunity in
      if cancel_failed x fills
      then release o
          (record w { state = record_partial_position now o fills failures none w.state })
      else release o w

  -- The `match` on the result of the trade.
  unfoldable pub settle : Exchange D → Time → Task D → TradeResult → World D → World D
  unfolding settle_success settle_partial
  settle x now task (success fills) w = settle_success x now task w
  settle x now task (partial fills failures) w = settle_partial x now task fills failures w
  settle x now task (failed reason) w = release task.opportunity w

  unfoldable pub conclude : Exchange D → Time → Task D → ExecutionOutcome → World D → World D
  conclude x now task (done r) w =
      notify (execution_completed task.opportunity.market_id r) (settle x now task r w)
  conclude x now task (refused e) w =
      notify (execution_failed task.opportunity.market_id e) (release task.opportunity w)
  conclude x now task timed_out w =
      notify (execution_failed task.opportunity.market_id "execution_timeout")
        (release task.opportunity w)

  -- The lock guard releases the market when it is dropped, at the end.
  unfoldable pub finish : Exchange D → Time → Task D → ExecutionOutcome → World D → World D
  unfolding conclude
  finish x now task outcome w =
      let v = conclude x now task outcome w in
      record v { state = release_execution task.opportunity.market_id v.state }
