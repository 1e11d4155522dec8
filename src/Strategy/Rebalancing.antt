-- ===== src/Strategy/Rebalancing.antt =====
-- src/application/strategy/market_rebalancing.rs: every outcome of a larger market for less than the
-- payout.
use edgelord.Common.{
  ℕ, Bool, ◌||◌, ◌&&◌, List, [], ◌∷◌, ◌++◌, map, String, Option, none, some, if◌then◌else◌, ◌>>=◌,
  ltb, leb, length,
}
use edgelord.Money.{Decimal, ◌⊕◌, ◌⊖◌, ◌⊗◌, ◌<?◌, ◌≤?◌, min}
use edgelord.Domain.Id.{TokenId, MarketId}
use edgelord.Domain.Book.{PriceLevel}
use edgelord.Domain.Market.Registry.{outcome_count, token_ids}
use edgelord.Domain.Opportunity.{Opportunity, OpportunityLeg, with_strategy}
use edgelord.Strategy.Context.{DetectionContext, MarketContext, is_multi_outcome, ask_level}

pub record MarketRebalancingConfig (D : Type 0) : Type 0 where
  pub min_edge : D
  pub min_profit : D
  pub max_outcomes : ℕ

pub record RebalancingLeg (D : Type 0) : Type 0 where
  pub token_id : TokenId
  pub price : D
  pub volume : D

pub record RebalancingOpportunity (D : Type 0) : Type 0 where
  pub market_id : MarketId
  pub question : String
  pub legs : List (RebalancingLeg D)
  pub total_cost : D
  pub edge : D
  pub volume : D
  pub expected_profit : D

-- The variables of the loop of `detect_rebalancing`.
pub record Legs (D : Type 0) : Type 0 where
  pub legs : List (RebalancingLeg D)
  pub total_cost : D
  pub min_volume : D

module _ {D : Type 0} ⦃d : Decimal D⦄ where
  unfoldable pub default : MarketRebalancingConfig D
  default = record { min_edge = d.scaled 3 2; min_profit = d.scaled 25 2; max_outcomes = 10 }

  abbrev pub applies_to : MarketRebalancingConfig D → MarketContext → Bool
  applies_to config ctx = is_multi_outcome ctx && leb ctx.outcome_count config.max_outcomes

  abbrev pub push_leg : TokenId → PriceLevel D → Legs D → Legs D
  push_leg t ask acc = record {
    legs = acc.legs ++ (record { token_id = t; price = ask.price; volume = ask.size } ∷ []);
    total_cost = acc.total_cost ⊕ ask.price;
    min_volume = min acc.min_volume ask.size;
  }

  unfoldable pub collect : DetectionContext D → List TokenId → Legs D → Option (Legs D)
  collect ctx [] acc = some acc
  collect ctx (t ∷ ts) acc = elim (ask_level ctx t) [
    | none ↦ none
    | some ask ↦ collect ctx ts (push_leg t ask acc)
  ]

  -- What follows the loop.
  unfoldable pub judge :
      DetectionContext D
      → MarketRebalancingConfig D
      → D
      → Legs D
      → Option (RebalancingOpportunity D)
  judge ctx config payout acc =
      let margin = payout ⊖ acc.total_cost in
      let profit = margin ⊗ acc.min_volume in
      if payout ≤? acc.total_cost
      then none
      else if margin <? config.min_edge
      then none
      else if profit <? config.min_profit
      then none
      else some (record {
        market_id = ctx.market.market_id;
        question = ctx.market.question;
        legs = acc.legs;
        total_cost = acc.total_cost;
        edge = margin;
        volume = acc.min_volume;
        expected_profit = profit;
      })

  unfoldable pub detect_rebalancing :
      DetectionContext D
      → List TokenId
      → MarketRebalancingConfig D
      → D
      → Option (RebalancingOpportunity D)
  unfolding collect judge
  detect_rebalancing ctx ts config payout =
      if ltb (length ts) 3 || ltb config.max_outcomes (length ts)
      then none
      else collect ctx ts (record { legs = []; total_cost = d.nought; min_volume = d.largest })
        >>= judge ctx config payout

  -- The legs as `detect` passes them on.
  abbrev pub to_legs : List (RebalancingLeg D) → List (OpportunityLeg D)
  to_legs = map (λ l. record { token_id = l.token_id; ask_price = l.price })

  abbrev pub to_opportunity : D → RebalancingOpportunity D → Opportunity D
  to_opportunity payout r =
      with_strategy r.market_id r.question (to_legs r.legs) r.volume payout "market_rebalancing"

  unfoldable pub detect : MarketRebalancingConfig D → DetectionContext D → List (Opportunity D)
  detect config ctx =
      let payout = ctx.market.payout in
      if ltb (outcome_count ctx.market) 3
      then []
      else elim (detect_rebalancing ctx (token_ids ctx.market) config payout) [
        | none ↦ []
        | some r ↦ to_opportunity payout r ∷ []
      ]
