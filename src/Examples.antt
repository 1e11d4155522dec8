-- ===== src/Examples.antt =====
-- Each general theorem at concrete input.
pub mod Data
mod Handlers
mod Interleaving
mod Subscriptions
mod Clusters
mod Configuration
mod Reconnection
mod Pool
mod Remote
mod Orders
mod Feed
mod Detection
mod Recorder
mod Stream
mod Inference
mod Projection
use edgelord.Common.{
  ℕ, ◌≡◌, ◌≢◌, ◌⊎◌, refl, Bool, true, not, ◌&&◌, ◌||◌, List, [], ◌∷◌, ◌++◌, map, String, Option,
  none, some, ok, if◌then◌else◌, nat_beq, ltb, leb, All, lookup, contains, filter, ◌==◌, string_eq,
}
use edgelord.Common.Int.{ℤ, pos, ◌+ℤ◌, ◌-ℤ◌}
use edgelord.Money.{◌⊖◌, ◌≺◌, sum, sum_from}
use edgelord.Money.Cents.{cents, cents-IsExact}
use edgelord.Cache.Books.{update, get-update}
use edgelord.Cache.Books
use edgelord.Examples.Data.{
  book, cache, rain, election, cache, context, single, rebalancing, leg, limits, position, idle,
  busy, world, task, config, exchange,
}
use edgelord.Domain.Opportunity.{Opportunity, try_new, try_new_iff, ask_prices, new}
use edgelord.Domain.Market.Registry.{empty, add, get_by_token, get_by_market_id, token_ids}
use edgelord.Domain.Market.Lookup.{get-add}
use edgelord.Domain.Trade.{success, partial}
use edgelord.Tracker.{close, total_exposure, get}
use edgelord.Tracker
use edgelord.Tracker.Exposure.{exposure_of, total_exposure-add, total_exposure-close}
use edgelord.Domain.Position.{Position, status_is_closed}
use edgelord.State.{
  set_risk_limit, max_slippage, release_exposure, try_reserve_exposure, RiskLimits,
}
use edgelord.State
use edgelord.State.Limits.{AreValid, set_risk_limit-AreValid}
use edgelord.State.Reservation.{release-try_reserve}
use edgelord.Risk.Check.{check_effect}
use edgelord.Settlement.{manual_exit, close_all_for_market}
use edgelord.Settlement.CloseAll.{close_all_for_market_lem, settled, closings, is_open_on}
use edgelord.Strategy.Context
use edgelord.Cache.Books
use edgelord.Strategy.SingleCondition
use edgelord.Strategy.SingleCondition.{detect_single_condition, detect_outcomes, from_asks}
use edgelord.Strategy.Rebalancing
use edgelord.Strategy.Rebalancing.{
  RebalancingOpportunity, to_opportunity, detect_rebalancing, collect, judge,
}
use edgelord.Strategy.Soundness.{
  IsArbitrage, detect_single_condition-IsArbitrage, detect_rebalancing-IsArbitrage,
}
use edgelord.Strategy.Engine.{build, detect_all}
use edgelord.Strategy.Routing.{both, detect_all_routes, Promised, detect_all-Promised}
use edgelord.Orchestration.Slippage.{
  get_max_slippage, get_max_slippage_bounds, WithinBy, max_slippage_from, leg_slippage,
}
use edgelord.Orchestration.Opportunity.{
  handle_opportunity, Outcome, committed, handle_opportunity-Outcome,
}
use edgelord.Orchestration.Execution.{ExecutionOutcome, done, finish}
use edgelord.Orchestration.Execution.Effects.{finish_releases, exposure-finish, invested}

close_all_for_market_example :
    close_all_for_market (λ x. "0.10") (λ p. pos 1000) manual_exit idle.positions "rain" ≡ record {
      tracker = record idle.positions {
        positions = map (settled "rain" (λ p. pos 1000)) idle.positions.positions;
      };
      events = closings (λ x. "0.10") (λ p. pos 1000) manual_exit "rain" idle.positions.positions;
      total_pnl = sum (map (λ p. pos 1000) (filter (is_open_on "rain") idle.positions.positions));
    }
close_all_for_market_example =
    close_all_for_market_lem (λ x. "0.10") (λ p. pos 1000) manual_exit idle.positions "rain"
      ((refl, tt), (tt, tt))
