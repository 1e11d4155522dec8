-- ===== src/Strategy/Soundness/Arbitrage.antt =====
-- What a strategy on a single market promises of an opportunity.
use edgelord.Common.{◌≡◌, map, some, All}
use edgelord.Money.{Decimal, ◌≼◌, ◌≺◌}
use edgelord.Domain.Book.{PriceLevel}
use edgelord.Domain.Market.Registry.{token_ids}
use edgelord.Domain.Opportunity.{Opportunity, OpportunityLeg, total_cost, edge, expected_profit}
use edgelord.Strategy.Context.{DetectionContext, ask_level}

module _ {D : Type 0} ⦃d : Decimal D⦄ (ctx : DetectionContext D) where
  -- The leg buys at the best ask of its book, which offers at least the volume.
  abbrev pub IsQuoted : D → OpportunityLeg D → Type 0
  IsQuoted volume leg =
      (l : PriceLevel D) × (ask_level ctx leg.token_id ≡ some l)
      × (leg.ask_price ≡ l.price)
      × (volume ≼ l.size)

  -- One leg for each outcome of the market, in order, at the best asks, for less than the payout.
  pub record IsArbitrage (min_edge min_profit : D) (o : Opportunity D) : Type 0 where
    pub market : o.market_id ≡ ctx.market.market_id
    pub payout : o.payout ≡ ctx.market.payout
    pub covers : map (λ l. l.token_id) o.legs ≡ token_ids ctx.market
    pub quoted : All (IsQuoted o.volume) o.legs
    pub profitable : total_cost o ≺ o.payout
    pub edge_enough : min_edge ≼ edge o
    pub profit_enough : min_profit ≼ expected_profit o
