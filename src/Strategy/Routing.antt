-- ===== src/Strategy/Routing.antt =====
-- Which strategy answers for which market, when the two on single markets are registered.
use edgelord.Common.{
  ◌≡◌, refl, ap, false, ◌&&◌, List, [], ◌∷◌, ◌++◌, Option, none, some, filter, nat_beq,
  if◌then◌else◌, arith, ◌⊎◌, inl, inr, Bool-cases, ltb, leb, All, All-if,
}
use mathlib.Core.List.{append-nil}
use edgelord.Money.{Decimal, IsExact}
use edgelord.Domain.Opportunity.{Opportunity}
use edgelord.Domain.Market.Registry.{Market, outcome_count, token_ids}
use edgelord.Cache.Books.{BookCache}
use edgelord.Strategy.Context.{MarketContext, DetectionContext, context_of, new}
use edgelord.Strategy.SingleCondition
use edgelord.Strategy.SingleCondition.{SingleConditionConfig, detect_single_condition}
use edgelord.Strategy.Rebalancing
use edgelord.Strategy.Rebalancing.{
  MarketRebalancingConfig, RebalancingOpportunity, detect_rebalancing, to_opportunity,
}
use edgelord.Strategy.Soundness.{
  IsArbitrage, detect_single_condition-IsArbitrage, detect_rebalancing-IsArbitrage,
}
use edgelord.Strategy.Engine.{
  Strategy, single_strategy, rebalancing_strategy, Builder, build, detect_all,
  detect_all_with_context,
}

module _ {D : Type 0} where
  abbrev answers : Strategy D → DetectionContext D → MarketContext → List (Opportunity D)
  answers s ctx mc = if s.applies_to mc then s.detect ctx else []

  detect_two :
      (s r : Strategy D) (ctx : DetectionContext D) (mc : MarketContext)
      → detect_all_with_context (s ∷ r ∷ []) ctx mc ≡ answers s ctx mc ++ answers r ctx mc
  unfolding detect_all_with_context filter
  detect_two s r ctx mc = elim (Bool-cases (s.applies_to mc)) [
    | inl e ↦ elim (Bool-cases (r.applies_to mc)) [
      | inl f ↦
          rw (e, f, detect_all_with_context) (ap (◌++◌ (s.detect ctx)) (append-nil (r.detect ctx)))
      | inr f ↦ rw (e, f, detect_all_with_context)
    ]
    | inr e ↦ elim (Bool-cases (r.applies_to mc)) [
      | inl f ↦ rw (e, f, detect_all_with_context) (append-nil (r.detect ctx))
      | inr f ↦ rw (e, f, detect_all_with_context)
    ]
  ]

  context_of-count : (m : Market D) → (context_of m).outcome_count ≡ outcome_count m
  context_of-count m = ground arith

module _ {D : Type 0} ⦃d : Decimal D⦄ (single : SingleConditionConfig D)
    (rebalancing : MarketRebalancingConfig D) where
  -- Both strategies, and no combinatorial one.
  abbrev pub both : Builder D
  both = record {
    single_condition = some single;
    market_rebalancing = some rebalancing;
    combinatorial = none;
  }

  -- A market with two outcomes goes to the single-condition strategy, one with three or more, up to
  -- the configured number, to the rebalancing strategy, and any other to none.
  pub detect_all_routes :
      (m : Market D) (cache : BookCache D)
      → let ctx = new m cache in
        let n = outcome_count m in
        detect_all (build both) ctx ≡ (
          if nat_beq n 2
          then SingleCondition.detect single ctx
          else if ltb 2 n && leb n rebalancing.max_outcomes
          then Rebalancing.detect rebalancing ctx
          else [])
  unfolding new build
  detect_all_routes m cache =
      rw
        (
          detect_two (single_strategy single) (rebalancing_strategy rebalancing) (new m cache)
              (context_of m),
          context_of-count m,
        )
        (elim (Bool-cases (nat_beq (outcome_count m) 2)) [
          | inl e ↦
              let small : ltb 2 (outcome_count m) ≡ false = ground arith in
              rw (e, small) (append-nil _)
          | inr e ↦ rw e
        ])

module _ {D : Type 0} ⦃d : Decimal D⦄ ⦃x : IsExact D⦄ (single : SingleConditionConfig D)
    (rebalancing : MarketRebalancingConfig D) (ctx : DetectionContext D) where
  -- The promise at the thresholds of one strategy or the other.
  abbrev pub Promised : Opportunity D → Type 0
  Promised o =
      IsArbitrage ctx single.min_edge single.min_profit o
      ⊎ IsArbitrage ctx rebalancing.min_edge rebalancing.min_profit o

  detect-Promised-single : All Promised (SingleCondition.detect single ctx)
  unfolding SingleCondition.detect
  detect-Promised-single = go (detect_single_condition ctx single) refl
    where
      go :
          (r : Option (Opportunity D))
          → detect_single_condition ctx single ≡ r
          → All Promised (elim r [ none ↦ [] | some o ↦ o ∷ [] ])
      go none e = tt
      go (some o) e = (inl (detect_single_condition-IsArbitrage ctx single o e), tt)

  detect-Promised-rebalancing : All Promised (Rebalancing.detect rebalancing ctx)
  unfolding Rebalancing.detect
  detect-Promised-rebalancing = elim (Bool-cases (ltb (outcome_count ctx.market) 3)) [
    | inl e ↦ rw (e, All) tt
    | inr e ↦ rw (e, All) (go _ refl)
  ]
    where
      go :
          (r : Option (RebalancingOpportunity D))
          → detect_rebalancing ctx (token_ids ctx.market) rebalancing ctx.market.payout ≡ r
          → All Promised (elim r [ none ↦ [] | some o ↦ to_opportunity ctx.market.payout o ∷ [] ])
      go none e = tt
      go (some r) e = (inr (detect_rebalancing-IsArbitrage ctx rebalancing r e), tt)

module _ {D : Type 0} ⦃d : Decimal D⦄ ⦃x : IsExact D⦄ (single : SingleConditionConfig D)
    (rebalancing : MarketRebalancingConfig D) where
  -- With both strategies registered, every opportunity that is detected on a market keeps the promise
  -- at the thresholds of one of them.
  pub detect_all-Promised :
      (m : Market D) (cache : BookCache D)
      → let ctx = new m cache in
        All (Promised single rebalancing ctx) (detect_all (build (both single rebalancing)) ctx)
  detect_all-Promised m cache =
      let ctx = new m cache in
      rw (detect_all_routes single rebalancing m cache) (
        All-if (Promised single rebalancing ctx) (nat_beq (outcome_count m) 2)
          (SingleCondition.detect single ctx) _ (detect-Promised-single single rebalancing ctx)
          (All-if (Promised single rebalancing ctx)
            (ltb 2 (outcome_count m) && leb (outcome_count m) rebalancing.max_outcomes)
            (Rebalancing.detect rebalancing ctx) []
            (detect-Promised-rebalancing single rebalancing ctx) tt))
