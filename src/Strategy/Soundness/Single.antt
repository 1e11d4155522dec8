-- ===== src/Strategy/Soundness/Single.antt =====
-- `detect_single_condition` keeps the promise.
use edgelord.Common.{◌≡◌, refl, sym, ◌∙◌, List, [], ◌∷◌, Option, none, some, ◌>>=◌, arith}
use edgelord.Money.{
  Decimal, IsExact, ◌⊕◌, ◌⊖◌, ◌⊗◌, ◌≼◌, ◌≺◌, min, min_bounds, sum, sum_from, nought_⊕,
}
use edgelord.Domain.Book.{PriceLevel}
use edgelord.Domain.Market.Registry.{Outcome}
use edgelord.Domain.Opportunity.{Opportunity}
use edgelord.Strategy.Context.{DetectionContext, ask_level}
use edgelord.Strategy.SingleCondition.{
  SingleConditionConfig, candidate, from_asks, detect_outcomes, detect_single_condition,
}
use edgelord.Strategy.Soundness.Arbitrage.{IsArbitrage}

module _ {D : Type 0} ⦃d : Decimal D⦄ ⦃x : IsExact D⦄ (ctx : DetectionContext D) where
  sum_two : (a b : D) → sum (a ∷ b ∷ []) ≡ a ⊕ b
  unfolding sum sum_from
  sum_two a b = rw (nought_⊕ a)

  from_asks_inv :
      (config : SingleConditionConfig D) (p n : Outcome) (pa na : PriceLevel D) (o : Opportunity D)
      → from_asks ctx config p n pa na ≡ some o
      → let margin = ctx.market.payout ⊖ (pa.price ⊕ na.price) in
        ((pa.price ⊕ na.price) ≺ ctx.market.payout)
        × (config.min_edge ≼ margin)
        × (config.min_profit ≼ (margin ⊗ min pa.size na.size))
        × (o ≡ candidate ctx p n pa na)
  unfolding from_asks
  from_asks_inv config p n pa na o h = ground arith

  from_asks-IsArbitrage :
      (config : SingleConditionConfig D) (p n : Outcome) (pa na : PriceLevel D) (o : Opportunity D)
      → ctx.market.outcomes ≡ p ∷ n ∷ []
      → ask_level ctx p.token_id ≡ some pa
      → ask_level ctx n.token_id ≡ some na
      → from_asks ctx config p n pa na ≡ some o
      → IsArbitrage ctx config.min_edge config.min_profit o
  from_asks-IsArbitrage config p n pa na o e ep en h =
      let (cheap, edge_enough, profit_enough, same) = from_asks_inv config p n pa na o h in
      let (small, small') = min_bounds pa.size na.size in
      rw same (record {
        market = refl;
        payout = refl;
        covers = rw e;
        quoted = ((pa, ep, refl, small), ((na, en, refl, small'), tt));
        profitable = rw (sum_two pa.price na.price) cheap;
        edge_enough = rw (sum_two pa.price na.price) edge_enough;
        profit_enough = rw (sum_two pa.price na.price) profit_enough;
      })

  detect_outcomes-eq :
      (config : SingleConditionConfig D) (p n : Outcome)
      → detect_outcomes ctx config (p ∷ n ∷ []) ≡ (
          ask_level ctx p.token_id >>= λ pa.
          ask_level ctx n.token_id >>= from_asks ctx config p n pa)
  unfolding detect_outcomes
  detect_outcomes-eq config p n = ground arith

  -- Whatever `detect_single_condition` reports is an arbitrage on the whole market.
  pub detect_single_condition-IsArbitrage :
      (config : SingleConditionConfig D) (o : Opportunity D)
      → detect_single_condition ctx config ≡ some o
      → IsArbitrage ctx config.min_edge config.min_profit o
  unfolding detect_single_condition
  detect_single_condition-IsArbitrage config o h = go ctx.market.outcomes refl h
    where
      two :
          (p n : Outcome)
          → ctx.market.outcomes ≡ p ∷ n ∷ []
          → (pa na : Option (PriceLevel D)) → ask_level ctx p.token_id ≡ pa
          → ask_level ctx n.token_id ≡ na
          → (pa >>= λ a. na >>= from_asks ctx config p n a) ≡ some o
          → IsArbitrage ctx config.min_edge config.min_profit o
      two p n e none na ep en k = cc
      two p n e (some a) none ep en k = cc
      two p n e (some a) (some b) ep en k = from_asks-IsArbitrage config p n a b o e ep en k

      go :
          (os : List Outcome)
          → ctx.market.outcomes ≡ os
          → detect_outcomes ctx config os ≡ some o
          → IsArbitrage ctx config.min_edge config.min_profit o
      go [] e k = cc
      go (p ∷ []) e k = cc
      go (p ∷ n ∷ []) e k = two p n e _ _ refl refl (sym (detect_outcomes-eq config p n) ∙ k)
      go (p ∷ n ∷ q ∷ os) e k = cc
