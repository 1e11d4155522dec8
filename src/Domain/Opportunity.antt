-- ===== src/Domain/Opportunity.antt =====
-- src/domain/opportunity.rs: a set of legs to buy whose payout exceeds their cost.
use edgelord.Common.{
  ◌≡◌, ◌≢◌, ◌↔◌, List, [], ◌∷◌, map, String, Result, ok, err, is_empty, if◌then◌else◌, arith,
}
use edgelord.Money.{Decimal, ◌⊖◌, ◌⊗◌, ◌≺◌, ◌≤?◌, sum}
use edgelord.Domain.Id.{MarketId, TokenId}
use edgelord.Domain.Error.{
  DomainError, empty_legs, non_positive_volume, payout_not_greater_than_cost,
}

pub record OpportunityLeg (D : Type 0) : Type 0 where
  pub token_id : TokenId
  pub ask_price : D

pub record Opportunity (D : Type 0) : Type 0 where
  pub market_id : MarketId
  pub question : String
  pub legs : List (OpportunityLeg D)
  pub volume : D
  pub payout : D
  pub strategy : String

module _ {D : Type 0} where
  -- `Opportunity::new`, `Opportunity::with_strategy`.
  abbrev pub with_strategy :
      MarketId → String → List (OpportunityLeg D) → D → D → String → Opportunity D
  with_strategy market_id question legs volume payout strategy = record {
    market_id = market_id;
    question = question;
    legs = legs;
    volume = volume;
    payout = payout;
    strategy = strategy;
  }

  abbrev pub new : MarketId → String → List (OpportunityLeg D) → D → D → Opportunity D
  new market_id question legs volume payout = with_strategy market_id question legs volume payout ""

  abbrev pub ask_prices : List (OpportunityLeg D) → List D
  ask_prices = map (λ l. l.ask_price)

module _ {D : Type 0} ⦃d : Decimal D⦄ where
  abbrev pub total_cost : Opportunity D → D
  total_cost o = sum (ask_prices o.legs)

  abbrev pub edge : Opportunity D → D
  edge o = o.payout ⊖ total_cost o

  abbrev pub expected_profit : Opportunity D → D
  expected_profit o = edge o ⊗ o.volume

  unfoldable pub try_new :
      MarketId → String → List (OpportunityLeg D) → D → D → Result (Opportunity D) (DomainError D)
  try_new market_id question legs volume payout =
      if is_empty legs
      then err empty_legs
      else if volume ≤? d.nought
      then err (non_positive_volume volume)
      else let cost = sum (ask_prices legs) in
        if payout ≤? cost
        then err (payout_not_greater_than_cost payout cost)
        else ok (new market_id question legs volume payout)

  -- `try_new` accepts exactly the inputs with a leg, a positive volume and a payout above the cost of
  -- the legs, and then the opportunity has just these parts and no strategy name.
  pub try_new_iff :
      (market_id : MarketId) (question : String) (legs : List (OpportunityLeg D))
      (volume payout : D) (o : Opportunity D)
      → (try_new market_id question legs volume payout ≡ ok o) ↔ (
          (legs ≢ [])
          × (d.nought ≺ volume)
          × (sum (ask_prices legs) ≺ payout)
          × (o ≡ new market_id question legs volume payout))
  unfolding try_new
  try_new_iff m q [] volume payout o = ground arith
  try_new_iff m q (l ∷ ls) volume payout o = ground arith
