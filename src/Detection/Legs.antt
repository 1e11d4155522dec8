-- ===== src/Detection/Legs.antt =====
-- The opportunity that a detection builds (src/application/cluster/detector.rs).
use edgelord.Common.{
  suc, ◌≤◌, ◌≡◌, refl, ap, ◌∙◌, List, [], ◌∷◌, map, Option, ok, Result, length, arith, inl, inr,
  Result-cases, IfOk, IfSome, Bool-cases, ltb,
}
use edgelord.Money.{Decimal, ◌≼◌, ◌<?◌}
use edgelord.Domain.Id.{TokenId}
use edgelord.Domain.Book.{Book}
use edgelord.Domain.Market.Registry.{MarketRegistry}
use edgelord.Domain.Opportunity.{Opportunity}
use edgelord.Domain.Relation.{Cluster}
use edgelord.Detection.Detector.{
  ClusterDetectionConfig, ClusterOpportunity, IlpProblem, ProjectionResult, detect, detect_priced,
  gather_prices, build_opportunity, legs_of, problem,
}
use edgelord.Detection.Found.{length-gather_prices, length-map}

length-legs_of :
    {D : Type 0} (ts : List TokenId) (vs : List D)
    → length vs ≡ length ts
    → length (legs_of ts vs) ≡ length ts
unfolding legs_of
length-legs_of [] vs h = refl
length-legs_of (t ∷ ts) [] h = absurd (omega arith)
length-legs_of (t ∷ ts) (v ∷ vs) h = ap suc (length-legs_of ts vs (omega arith))

-- A leg for each market of the cluster, the gap as its volume, a payout of one.
pub record Built {D F : Type 0} ⦃d : Decimal D⦄ (min_gap : D) (k : Cluster D F)
    (c : ClusterOpportunity D) : Type 0 where
  pub reaches : min_gap ≼ c.gap
  pub several : 2 ≤ length k.markets
  pub volume_is_gap : c.opportunity.volume ≡ c.gap
  pub pays_one : c.opportunity.payout ≡ d.one
  pub leg_each : length c.opportunity.legs ≡ length k.markets

module _ {D E F : Type 0} ⦃d : Decimal D⦄
    (project : List D → IlpProblem D → Result (ProjectionResult D) E)
    (sized : (prices : List D) (p : IlpProblem D) (r : ProjectionResult D)
      → project prices p ≡ ok r
      → length r.values ≡ length prices) where
  built_lem :
      (k : Cluster D F) (ts : List TokenId) (values : List D) (gap : D)
      (registry : MarketRegistry D) {o : Opportunity D}
      → build_opportunity {E = E} k ts values gap registry ≡ ok o
      → (o.volume ≡ gap) × (o.payout ≡ d.one) × (o.legs ≡ legs_of ts values)
  unfolding build_opportunity
  built_lem k ts values gap registry h = ground (arith, h)

  detect_priced-Built :
      (config : ClusterDetectionConfig D) (k : Cluster D F) (registry : MarketRegistry D)
      (priced : List (D × TokenId))
      → length priced ≡ length k.markets
      → IfOk (IfSome (Built config.min_gap k)) (detect_priced project config k registry priced)
  unfolding detect_priced
  detect_priced-Built config k registry priced size =
      let prices = map (λ p. p.0) priced in
      let tokens = map (λ p. p.1) priced in
      let priced_all = length-map (λ p. p.0) priced in
      let named_all = length-map (λ p. p.1) priced in
      elim (Bool-cases (ltb (length prices) 2)) [
        | inl few ↦ rw (few, detect_priced) tt
        | inr enough ↦ elim (Result-cases (project prices (problem k prices))) [
          | inr (e, f) ↦ rw (enough, f, detect_priced) tt
          | inl (r, f) ↦ elim (Bool-cases (r.gap <? config.min_gap)) [
            | inl small ↦ rw (enough, f, small, detect_priced) tt
            | inr big ↦
                elim (Result-cases (build_opportunity {E = E} k tokens r.values r.gap registry)) [
                  | inr (e, g) ↦ rw (enough, f, big, g, detect_priced) tt
                  | inl (o, g) ↦
                      let (volume, payout, legs) = built_lem k tokens r.values r.gap registry g in
                      let same : length r.values ≡ length tokens =
                        omega (arith, sized prices (problem k prices) r f, priced_all, named_all) in
                      rw (enough, f, big, g, detect_priced)
                        (record {
                          reaches = big;
                          several = ground (arith, enough, priced_all, size);
                          volume_is_gap = volume;
                          pays_one = payout;
                          leg_each =
                              ap length legs
                              ∙ length-legs_of tokens r.values same
                              ∙ named_all
                              ∙ size;
                        })
                ]
          ]
        ]
      ]

  pub detect-Built :
      (config : ClusterDetectionConfig D) (book_lookup : TokenId → Option (Book D))
      (registry : MarketRegistry D) (k : Cluster D F)
      → IfOk (IfSome (Built config.min_gap k)) (detect project config book_lookup registry k)
  unfolding detect
  detect-Built config book_lookup registry k =
      elim (Result-cases (gather_prices {E = E} book_lookup registry k.markets)) [
        | inr (e, f) ↦ rw (f, detect) tt
        | inl (priced, f) ↦
            rw (f, detect)
              (detect_priced-Built config k registry priced
                (length-gather_prices {E = E} book_lookup registry k.markets f))
      ]
