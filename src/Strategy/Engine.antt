-- ===== src/Strategy/Engine.antt =====
-- src/application/strategy/registry.rs: the registered strategies. A strategy is a record of the
-- methods of the trait that detection calls; `set_market_registry` does nothing for the two that
-- work on one market.
use edgelord.Common.{Bool, List, [], ◌∷◌, ◌++◌, map, String, Option, none, some, filter}
use mathlib.Core.List.{flat_map}
use edgelord.Money.{Decimal}
use edgelord.Domain.Opportunity.{Opportunity}
use edgelord.Strategy.Context.{MarketContext, DetectionContext}
use edgelord.Strategy.SingleCondition
use edgelord.Strategy.SingleCondition.{
  SingleConditionConfig, detect_single_condition, detect_outcomes,
}
use edgelord.Strategy.Rebalancing
use edgelord.Strategy.Rebalancing.{MarketRebalancingConfig, detect_rebalancing}

pub record Strategy (D : Type 0) : Type 0 where
  pub name : String
  pub applies_to : MarketContext → Bool
  pub detect : DetectionContext D → List (Opportunity D)

module _ {D : Type 0} where
  unfoldable pub detect_all_with_context :
      List (Strategy D) → DetectionContext D → MarketContext → List (Opportunity D)
  unfolding flat_map
  detect_all_with_context strategies ctx market_ctx =
      flat_map (λ s. s.detect ctx) (filter (λ s. s.applies_to market_ctx) strategies)

  abbrev pub detect_all : List (Strategy D) → DetectionContext D → List (Opportunity D)
  detect_all strategies ctx = detect_all_with_context strategies ctx ctx.market_ctx

  abbrev pub strategy_names : List (Strategy D) → List String
  strategy_names = map (λ s. s.name)

-- What `StrategyRegistryBuilder` has been given, with the combinatorial strategy as it is built.
pub record Builder (D : Type 0) : Type 0 where
  pub single_condition : Option (SingleConditionConfig D)
  pub market_rebalancing : Option (MarketRebalancingConfig D)
  pub combinatorial : Option (Strategy D)

module _ {D : Type 0} ⦃d : Decimal D⦄ where
  abbrev pub single_strategy : SingleConditionConfig D → Strategy D
  single_strategy config = record {
    name = "single_condition";
    applies_to = SingleCondition.applies_to;
    detect = SingleCondition.detect config;
  }

  abbrev pub rebalancing_strategy : MarketRebalancingConfig D → Strategy D
  rebalancing_strategy config = record {
    name = "market_rebalancing";
    applies_to = Rebalancing.applies_to config;
    detect = Rebalancing.detect config;
  }

  abbrev registered {ℓ} : {A : Type ℓ} → (A → Strategy D) → Option A → List (Strategy D)
  registered f none = []
  registered f (some a) = f a ∷ []

  unfoldable pub build : Builder D → List (Strategy D)
  build b =
      registered single_strategy b.single_condition
      ++ (registered rebalancing_strategy b.market_rebalancing
          ++ registered (λ s. s) b.combinatorial)
