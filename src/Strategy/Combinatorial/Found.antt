-- ===== src/Strategy/Combinatorial/Found.antt =====
-- The combinatorial strategy (src/application/strategy/combinatorial.rs) with the projection of
-- src/application/solver/projection.rs.
use edgelord.Common.{
  ◌≤◌, ◌⊎◌, arith, ◌≡◌, refl, ap, false, List, [], Option, Option-cases, none, some, Result,
  Result-cases, IfOk, IfSome, ok, err, inl, inr, length, All,
}
use edgelord.Money.{Decimal}
use edgelord.Domain.Id.{Time}
use edgelord.Domain.Market.Registry.{MarketRegistry}
use edgelord.Domain.Opportunity.{Opportunity}
use edgelord.Domain.Relation.{Cluster}
use edgelord.Cache.Clusters.{ClusterCache, get_for_market}
use edgelord.Detection.Detector.{ClusterOpportunity, IlpProblem, ProjectionResult}
use edgelord.Detection.Detector
use edgelord.Detection.Legs.{Built, detect-Built}
use edgelord.Solver.Bregman.{Float}
use edgelord.Solver.FrankWolfe.{
  LpSolution, FrankWolfeConfig, Fault, is_small, project, projection_solver,
}
use edgelord.Solver.Certificate.{Projected, project-Projected}
use edgelord.Strategy.Context.{DetectionContext, order_book}
use edgelord.Strategy.Combinatorial.{
  CombinatorialConfig, CombinatorialStrategy, ClusterDetector, Projection, new, set_cache,
  set_registry, set_projection_solver, update_detector, detector_for, detector_config, detect,
  detect_cluster, reported,
}

module _ {D X E : Type 0} ⦃d : Decimal D⦄ (x : Float D X)
    (solve_ilp : IlpProblem D → Result (LpSolution D) E) (config : FrankWolfeConfig D)
    (bounded : is_small config d.largest ≡ false) where
  projection_solver-sized :
      (prices : List D) (p : IlpProblem D) (r : ProjectionResult D)
      → projection_solver x solve_ilp config prices p ≡ ok r
      → length r.values ≡ length prices
  unfolding projection_solver
  projection_solver-sized prices p r h = elim (Result-cases (project x solve_ilp config prices p)) [
    | inr (e, f) ↦ ground (arith, f, h)
    | inl (q, f) ↦
        let promised : Projected x solve_ilp config prices p q =
          rw f at (project-Projected x solve_ilp config prices p bounded) in
        ground (arith, f, h, promised.all_prices)
  ]

-- The settings, each given any number of times in any order.
pub data Set {D F X E : Type 0} ⦃d : Decimal D⦄ (x : Float D X) (config : CombinatorialConfig D)
    : CombinatorialStrategy D (Fault E) F → Type 0 where
  created : Set x config (new config)
  cached :
      (cache : ClusterCache D F) {s : CombinatorialStrategy D (Fault E) F}
      → Set x config s
      → Set x config (set_cache cache s)
  registered :
      (registry : MarketRegistry D) {s : CombinatorialStrategy D (Fault E) F}
      → Set x config s
      → Set x config (set_registry registry s)
  solving :
      (solve_ilp : IlpProblem D → Result (LpSolution D) E) (fw : FrankWolfeConfig D)
      {s : CombinatorialStrategy D (Fault E) F}
      → is_small fw d.largest ≡ false
      → Set x config s
      → Set x config (set_projection_solver (projection_solver x solve_ilp fw) s)

reported-All :
    {D X : Type 0} {Q : ClusterOpportunity D → Type 0} (P : Opportunity D → Type 0)
    (r : Result (Option (ClusterOpportunity D)) X)
    → ((c : ClusterOpportunity D) → Q c → P c.opportunity)
    → IfOk (IfSome Q) r
    → (length (reported r) ≤ 1) × All P (reported r)
reported-All P (err e) give h = (omega arith, tt)
reported-All P (ok none) give h = (omega arith, tt)
reported-All P (ok (some c)) give h = (omega arith, (give c h, tt))

abbrev Sized : {D E : Type 0} → Projection D (Fault E) → Type 0
Sized {D} solve =
    (prices : List D) (p : IlpProblem D) (r : ProjectionResult D)
    → solve prices p ≡ ok r
    → length r.values ≡ length prices

module _ {D F X E : Type 0} ⦃d : Decimal D⦄ (x : Float D X) (config : CombinatorialConfig D) where
  record Wired (s : CombinatorialStrategy D (Fault E) F) : Type 0 where
    configured : s.config ≡ config
    sized : IfSome Sized s.projection_solver
    detecting : s.detector ≡ detector_for config s.projection_solver

  Set-Wired : {s : CombinatorialStrategy D (Fault E) F} → Set x config s → Wired s
  unfolding update_detector set_cache set_registry set_projection_solver
  Set-Wired created = record { configured = refl; sized = tt; detecting = refl }
  Set-Wired (cached cache {s} r) =
      let w = Set-Wired r in
      record {
        configured = w.configured;
        sized = w.sized;
        detecting = ap (λ c. detector_for c s.projection_solver) w.configured;
      }
  Set-Wired (registered registry r) =
      let w = Set-Wired r in
      record { configured = w.configured; sized = w.sized; detecting = w.detecting }
  Set-Wired (solving solve_ilp fw {s} bounded r) =
      let w = Set-Wired r in
      record {
        configured = w.configured;
        sized = projection_solver-sized x solve_ilp fw bounded;
        detecting = ap (λ c. detector_for c (some (projection_solver x solve_ilp fw))) w.configured;
      }

  -- A reported opportunity is of the cluster that the cache gives for the market, and is built from a
  -- gap that reaches the threshold, with a leg for each market of the cluster.
  pub record FromCluster (now : Time) (s : CombinatorialStrategy D (Fault E) F)
      (ctx : DetectionContext D) (o : Opportunity D) : Type 0 where
    pub cache : ClusterCache D F
    pub cluster : Cluster D F
    pub found : ClusterOpportunity D
    pub cache_set : s.cluster_cache ≡ some cache
    pub cluster_cached : get_for_market now ctx.market.market_id cache ≡ some cluster
    pub built : Built config.gap_threshold cluster found
    pub reports : o ≡ found.opportunity

  -- At most one opportunity, and what it is built from.
  abbrev pub Detected :
      Time
      → CombinatorialStrategy D (Fault E) F
      → DetectionContext D
      → List (Opportunity D)
      → Type 0
  Detected now s ctx os = (length os ≤ 1) × All (FromCluster now s ctx) os

  detect_cluster-Detected :
      (now : Time) (s : CombinatorialStrategy D (Fault E) F) (ctx : DetectionContext D)
      (cache : ClusterCache D F) (registry : MarketRegistry D) (solve : Projection D (Fault E))
      → Sized solve
      → s.cluster_cache ≡ some cache
      → Detected now s ctx (
          detect_cluster registry
            (record { config = detector_config config; project = solve })
            ctx
            (get_for_market now ctx.market.market_id cache))
  unfolding detect_cluster
  detect_cluster-Detected now s ctx cache registry solve sized set =
      elim (Option-cases (get_for_market now ctx.market.market_id cache)) [
        | inl e ↦ rw (e, detect_cluster) (omega arith, tt)
        | inr (k, e) ↦
            rw (e, detect_cluster)
              (reported-All (FromCluster now s ctx)
                (Detector.detect solve (detector_config config) (order_book ctx) registry k)
                (λ c b. record {
                  cache = cache;
                  cluster = k;
                  found = c;
                  cache_set = set;
                  cluster_cached = e;
                  built = b;
                  reports = refl;
                })
                (detect-Built solve sized (detector_config config) (order_book ctx) registry k))
      ]

  detect_lem :
      (now : Time) (s : CombinatorialStrategy D (Fault E) F) (ctx : DetectionContext D)
      {cache : ClusterCache D F} {registry : MarketRegistry D}
      {detector : ClusterDetector D (Fault E)}
      → s.cluster_cache ≡ some cache
      → s.registry ≡ some registry
      → s.detector ≡ some detector
      → detect now s ctx
        ≡ detect_cluster registry detector ctx (get_for_market now ctx.market.market_id cache)
  unfolding detect
  detect_lem now s ctx e f h = rw (e, f, h, detect)

  detect-missing :
      (now : Time) (s : CombinatorialStrategy D (Fault E) F) (ctx : DetectionContext D)
      → (s.cluster_cache ≡ none) ⊎ (s.registry ≡ none) ⊎ (s.detector ≡ none)
      → detect now s ctx ≡ []
  unfolding detect
  detect-missing now s ctx h = ground (arith, h)

  -- However the strategy's cache, registry and solver have been set, where each solver is the
  -- projection with a tolerance that is not above the largest decimal, it detects at most one
  -- opportunity on a market. That is built from a gap of at least the threshold on a cluster that the
  -- cache has for the market, with a leg for each market of the cluster.
  pub detect-Detected :
      (now : Time) (s : CombinatorialStrategy D (Fault E) F) (ctx : DetectionContext D)
      → Set x config s
      → Detected now s ctx (detect now s ctx)
  detect-Detected now s ctx r =
      let w = Set-Wired r in
      let nothing : Detected now s ctx [] = (omega arith, tt) in
      elim (Option-cases s.cluster_cache) [
        | inl e ↦ rw (detect-missing now s ctx (inl e)) nothing
        | inr (cache, e) ↦ elim (Option-cases s.registry) [
          | inl f ↦ rw (detect-missing now s ctx (inr (inl f))) nothing
          | inr (registry, f) ↦ elim (Option-cases s.projection_solver) [
            | inl g ↦ rw (detect-missing now s ctx (inr (inr (rw g at w.detecting)))) nothing
            | inr (solve, g) ↦
                rw (detect_lem now s ctx e f (rw g at w.detecting))
                  (detect_cluster-Detected now s ctx cache registry solve (rw g at w.sized) e)
          ]
        ]
      ]
