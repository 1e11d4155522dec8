-- ===== src/Strategy/Soundness/Rebalance.antt =====
-- `detect_rebalancing` keeps the promise.
use edgelord.Common.{
  ◌≡◌, refl, List, [], ◌∷◌, ◌++◌, map, some, arith, All, All-append, >>=-eq-some, eq-some_of_guard,
  Option-cases, inl, inr,
}
use mathlib.Core.List.{map-append, append_assoc, append-nil}
use mathlib.Core.Option.{some-injective}
use edgelord.Money.{
  Decimal, IsExact, ◌⊖◌, ◌⊗◌, ◌≼◌, ◌≺◌, min_bounds, sum, sum_from, nought_⊕, ≼_trans, sum-append,
}
use edgelord.Domain.Id.{TokenId}
use edgelord.Domain.Book.{PriceLevel}
use edgelord.Domain.Market.Registry.{token_ids}
use edgelord.Domain.Opportunity.{OpportunityLeg, ask_prices}
use edgelord.Strategy.Context.{DetectionContext, ask_level}
use edgelord.Strategy.Rebalancing.{
  MarketRebalancingConfig, RebalancingLeg, RebalancingOpportunity, Legs, collect, judge,
  detect_rebalancing, to_legs, to_opportunity, push_leg,
}
use edgelord.Strategy.Soundness.Arbitrage.{IsQuoted, IsArbitrage}

module _ {D : Type 0} ⦃d : Decimal D⦄ ⦃x : IsExact D⦄ (ctx : DetectionContext D) where
  sum_one : (a : D) → sum (a ∷ []) ≡ a
  unfolding sum sum_from
  sum_one a = nought_⊕ a

  -- What the loop keeps: the tokens so far, their cost, and a volume that all of them offer.
  record Collected (done : List TokenId) (acc : Legs D) : Type 0 where
    tokens : map (λ l. l.token_id) (to_legs acc.legs) ≡ done
    cost : acc.total_cost ≡ sum (ask_prices (to_legs acc.legs))
    quoted : All (IsQuoted ctx acc.min_volume) (to_legs acc.legs)

  IsQuoted-mono :
      (v w : D) (legs : List (OpportunityLeg D))
      → w ≼ v
      → All (IsQuoted ctx v) legs
      → All (IsQuoted ctx w) legs
  IsQuoted-mono v w [] h q = tt
  IsQuoted-mono v w (l ∷ ls) h ((a, e, p, s), qs) =
      ((a, e, p, ≼_trans w v a.size h s), IsQuoted-mono v w ls h qs)

  push_leg-Collected :
      (done : List TokenId) (acc : Legs D) (t : TokenId) (ask : PriceLevel D)
      → ask_level ctx t ≡ some ask
      → Collected done acc
      → Collected (done ++ (t ∷ [])) (push_leg t ask acc)
  push_leg-Collected done acc t ask e c =
      let last : List (RebalancingLeg D) =
        record { token_id = t; price = ask.price; volume = ask.size } ∷ [] in
      let (small, small') = min_bounds acc.min_volume ask.size in
      record {
        tokens =
            rw (
              map-append _ acc.legs last,
              map-append _ (to_legs acc.legs) (to_legs last),
              c.tokens,
            );
        cost = rw (
          map-append _ acc.legs last,
          map-append _ (to_legs acc.legs) (to_legs last),
          sum-append (ask_prices (to_legs acc.legs)) (ask.price ∷ []),
          ← c.cost,
          sum_one ask.price,
        );
        quoted = rw (map-append _ acc.legs last) (
            All-append _ (to_legs acc.legs) (to_legs last)
              (IsQuoted-mono acc.min_volume _ (to_legs acc.legs) small c.quoted)
              ((ask, e, refl, small'), tt));
      }

  collect-Collected :
      (ts done : List TokenId) (acc r : Legs D)
      → Collected done acc
      → collect ctx ts acc ≡ some r
      → Collected (done ++ ts) r
  unfolding collect
  collect-Collected [] done acc r c h = rw (append-nil done, ← some-injective _ _ h) c
  collect-Collected (t ∷ ts) done acc r c h = elim (Option-cases (ask_level ctx t)) [
    | inl e ↦ cc (rw (e, collect) at h)
    | inr (ask, e) ↦
        let rest : collect ctx ts (push_leg t ask acc) ≡ some r = rw (e, collect) at h in
        rw (← append_assoc done (t ∷ []) ts) (
          collect-Collected ts (done ++ (t ∷ [])) (push_leg t ask acc) r
            (push_leg-Collected done acc t ask e c) rest)
  ]

  judge_inv :
      (config : MarketRebalancingConfig D) (payout : D) (acc : Legs D)
      (r : RebalancingOpportunity D)
      → judge ctx config payout acc ≡ some r
      → let margin = payout ⊖ acc.total_cost in
        (acc.total_cost ≺ payout)
        × (config.min_edge ≼ margin)
        × (config.min_profit ≼ (margin ⊗ acc.min_volume))
        × (r.legs ≡ acc.legs)
        × (r.volume ≡ acc.min_volume)
        × (r.market_id ≡ ctx.market.market_id)
  unfolding judge
  judge_inv config payout acc r h = ground arith

  judge-IsArbitrage :
      (config : MarketRebalancingConfig D) (acc : Legs D) (r : RebalancingOpportunity D)
      → Collected (token_ids ctx.market) acc
      → judge ctx config ctx.market.payout acc ≡ some r
      → IsArbitrage ctx config.min_edge config.min_profit (to_opportunity ctx.market.payout r)
  judge-IsArbitrage config acc r c h =
      let (cheap, edge_enough, profit_enough, legs, volume, market) =
        judge_inv config ctx.market.payout acc r h in
      record {
        market = market;
        payout = refl;
        covers = rw legs c.tokens;
        quoted = rw (legs, volume) c.quoted;
        profitable = rw (legs, ← c.cost) cheap;
        edge_enough = rw (legs, ← c.cost) edge_enough;
        profit_enough = rw (legs, volume, ← c.cost) profit_enough;
      }

  start-Collected :
      Collected [] (record { legs = []; total_cost = d.nought; min_volume = d.largest })
  unfolding sum sum_from
  start-Collected = record { tokens = refl; cost = refl; quoted = tt }

  -- Whatever `detect_rebalancing` reports for the tokens and the payout of a market is, as `detect`
  -- passes it on, an arbitrage on the whole market.
  pub detect_rebalancing-IsArbitrage :
      (config : MarketRebalancingConfig D) (r : RebalancingOpportunity D)
      → detect_rebalancing ctx (token_ids ctx.market) config ctx.market.payout ≡ some r
      → IsArbitrage ctx config.min_edge config.min_profit (to_opportunity ctx.market.payout r)
  unfolding detect_rebalancing
  detect_rebalancing-IsArbitrage config r h =
      let start : Legs D = record { legs = []; total_cost = d.nought; min_volume = d.largest } in
      let (acc, e, j) = >>=-eq-some _ _ (eq-some_of_guard _ _ h) in
      judge-IsArbitrage config acc r
        (collect-Collected (token_ids ctx.market) [] start acc start-Collected e) j
