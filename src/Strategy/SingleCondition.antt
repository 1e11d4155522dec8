-- ===== src/Strategy/SingleCondition.antt =====
-- src/application/strategy/single_condition.rs: both outcomes of a binary market for less than the
-- payout.
use edgelord.Common.{Bool, List, [], ◌∷◌, Option, none, some, if◌then◌else◌, ◌>>=◌}
use edgelord.Money.{Decimal, ◌⊕◌, ◌⊖◌, ◌⊗◌, ◌<?◌, ◌≤?◌, min}
use edgelord.Domain.Book.{PriceLevel, best_ask}
use edgelord.Domain.Market.Registry.{Outcome}
use edgelord.Domain.Opportunity.{Opportunity, with_strategy}
use edgelord.Strategy.Context.{DetectionContext, MarketContext, is_binary, order_book}

pub record SingleConditionConfig (D : Type 0) : Type 0 where
  pub min_edge : D
  pub min_profit : D

abbrev pub applies_to : MarketContext → Bool
applies_to = is_binary

module _ {D : Type 0} ⦃d : Decimal D⦄ where
  unfoldable pub default : SingleConditionConfig D
  default = record { min_edge = d.scaled 3 2; min_profit = d.scaled 10 2 }

  -- The opportunity on two outcomes at their asks.
  abbrev pub candidate :
      DetectionContext D → Outcome → Outcome → PriceLevel D → PriceLevel D → Opportunity D
  candidate ctx positive negative positive_ask negative_ask =
      with_strategy ctx.market.market_id ctx.market.question
        (record { token_id = positive.token_id; ask_price = positive_ask.price }
          ∷ record { token_id = negative.token_id; ask_price = negative_ask.price }
          ∷ [])
        (min positive_ask.size negative_ask.size) ctx.market.payout "single_condition"

  -- From the two best asks on.
  unfoldable pub from_asks :
      DetectionContext D
      → SingleConditionConfig D
      → Outcome
      → Outcome
      → PriceLevel D
      → PriceLevel D
      → Option (Opportunity D)
  from_asks ctx config positive negative positive_ask negative_ask =
      let cost = positive_ask.price ⊕ negative_ask.price in
      let payout = ctx.market.payout in
      let margin = payout ⊖ cost in
      let volume = min positive_ask.size negative_ask.size in
      if payout ≤? cost
      then none
      else if margin <? config.min_edge
      then none
      else if (margin ⊗ volume) <? config.min_profit
      then none
      else some (candidate ctx positive negative positive_ask negative_ask)

  unfoldable pub detect_outcomes :
      DetectionContext D → SingleConditionConfig D → List Outcome → Option (Opportunity D)
  unfolding from_asks
  detect_outcomes ctx config (positive ∷ negative ∷ []) = do
    positive_book ← order_book ctx positive.token_id
    negative_book ← order_book ctx negative.token_id
    positive_ask ← best_ask positive_book
    negative_ask ← best_ask negative_book
    from_asks ctx config positive negative positive_ask negative_ask
  detect_outcomes ctx config outcomes = none

  unfoldable pub detect_single_condition :
      DetectionContext D → SingleConditionConfig D → Option (Opportunity D)
  unfolding detect_outcomes
  detect_single_condition ctx config = detect_outcomes ctx config ctx.market.outcomes

  unfoldable pub detect : SingleConditionConfig D → DetectionContext D → List (Opportunity D)
  detect config ctx = elim (detect_single_condition ctx config) [ none ↦ [] | some o ↦ o ∷ [] ]
