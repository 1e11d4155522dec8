-- ===== src/Examples/Handlers.antt =====
-- What the strategies find, and the handling of an opportunity and of its execution.
use edgelord.Common.{
  ◌≡◌, refl, false, not, ◌&&◌, [], ◌∷◌, some, All, lookup, contains, ◌==◌, string_eq,
}
use edgelord.Common.Int.{ℤ, pos, ◌+ℤ◌, ◌-ℤ◌}
use edgelord.Money.{◌⊕◌, ◌⊖◌, ◌≼◌, sum, sum_from}
use edgelord.Money.Cents.{cents, cents-IsExact}
use edgelord.Examples.Data.{
  rain, election, cache, context, single, rebalancing, found, limits, idle, busy, world, task,
  config, exchange,
}
use edgelord.Domain.Market.Registry.{token_ids}
use edgelord.Domain.Trade.{success}
use edgelord.State.{exposure}
use edgelord.Risk.{amount_of}
use edgelord.Strategy.Context
use edgelord.Cache.Books
use edgelord.Strategy.SingleCondition.{detect_single_condition, detect_outcomes, from_asks}
use edgelord.Strategy.Rebalancing.{
  RebalancingOpportunity, to_opportunity, detect_rebalancing, collect, judge,
}
use edgelord.Strategy.Soundness.{IsArbitrage, detect_rebalancing-IsArbitrage}
use edgelord.Strategy.Engine.{build, detect_all}
use edgelord.Strategy.Routing.{both, Promised, detect_all-Promised}
use edgelord.Orchestration.Slippage.{get_max_slippage, max_slippage_from, leg_slippage}
use edgelord.Orchestration.Opportunity.{
  handle_opportunity, Outcome, committed, handle_opportunity-Outcome,
}
use edgelord.Orchestration.Execution.{done, finish}
use edgelord.Orchestration.Execution.Effects.{finish_releases, exposure-finish, invested}

rain_finds : detect_single_condition (context rain) single ≡ some found
unfolding detect_single_condition detect_outcomes from_asks Books.get lookup ◌+ℤ◌ ◌-ℤ◌
rain_finds = refl

-- The three outcomes of `election` for 90.
abbrev reported : RebalancingOpportunity ℤ
reported = record {
  market_id = "election";
  question = "Who wins?";
  legs =
      record { token_id = "a"; price = pos 20; volume = pos 10000 }
      ∷ record { token_id = "b"; price = pos 30; volume = pos 20000 }
      ∷ record { token_id = "c"; price = pos 40; volume = pos 30000 }
      ∷ [];
  total_cost = pos 90;
  edge = pos 10;
  volume = pos 10000;
  expected_profit = pos 1000;
}

election_finds :
    detect_rebalancing (context election) (token_ids election) rebalancing (pos 100) ≡ some reported
unfolding detect_rebalancing collect judge Books.get lookup ◌+ℤ◌ ◌-ℤ◌
election_finds = refl

detect_rebalancing_example :
    IsArbitrage (context election) (pos 3) (pos 100) (to_opportunity (pos 100) reported)
detect_rebalancing_example =
    detect_rebalancing-IsArbitrage (context election) rebalancing reported election_finds

detect_all-Promised_example :
    All
      (Promised single rebalancing (Context.new election cache))
      (detect_all (build (both single rebalancing)) (Context.new election cache))
detect_all-Promised_example = detect_all-Promised single rebalancing election cache

known_slippage : get_max_slippage found cache ≡ some (pos 0)
unfolding get_max_slippage max_slippage_from leg_slippage Books.get lookup ◌+ℤ◌ ◌-ℤ◌
known_slippage = refl

not_locked : contains "rain" idle.pending_executions ≡ false
unfolding contains
not_locked = refl

handle_opportunity-Outcome_example :
    Outcome config found []
      (committed config found idle)
      idle
      (handle_opportunity config found (world idle))
handle_opportunity-Outcome_example =
    handle_opportunity-Outcome config found (world idle) refl not_locked

was_reserved : amount_of found ≼ pos 9000
unfolding amount_of sum sum_from ◌+ℤ◌ ◌-ℤ◌
was_reserved = refl

finish_releases_example :
    let v = finish exchange 5 task (done (success [])) (world busy) in
    (v.state.pending_exposure ≡ pos 9000 ⊖ amount_of found)
    × (contains "rain" v.state.pending_executions
        ≡ (not (found.market_id == "rain") && contains found.market_id busy.pending_executions))
    × (v.state.risk_limits ≡ limits)
    × (v.state.circuit_breaker ≡ false)
    × (v.cache ≡ cache)
    × (v.tasks ≡ [])
finish_releases_example =
    finish_releases exchange 5 task (done (success [])) (world busy) "rain" was_reserved

exposure-finish_example :
    exposure (finish exchange 5 task (done (success [])) (world busy)).state
    ≡ invested exchange 5 task (done (success [])) ⊕ exposure busy
exposure-finish_example =
    exposure-finish exchange 5 task (done (success [])) (world busy) was_reserved
