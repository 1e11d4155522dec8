-- ===== src/Strategy/Combinatorial.antt =====
-- src/application/strategy/combinatorial.rs. The cache and the registry, which other parts of the
-- program share, are as they are at the call.
pub mod Found
use edgelord.Common.{
  ℕ, ◌≡◌, ◌⊎◌, refl, inl, inr, Bool, true, false, List, [], ◌∷◌, String, Option, none, some, Result,
  Result-cases, IfOk, IfSome, ok, err, length, if◌then◌else◌, Option-cases,
}
use edgelord.Money.{Decimal}
use edgelord.Domain.Id.{MarketId, TokenId, Time}
use edgelord.Domain.Market.Registry.{MarketRegistry}
use edgelord.Domain.Opportunity.{Opportunity}
use edgelord.Domain.Relation.{Cluster}
use edgelord.Cache.Clusters.{ClusterCache, get_for_market, has_relations}
use edgelord.Detection.Detector.{
  ClusterDetectionConfig, ClusterOpportunity, IlpProblem, ProjectionResult,
}
use edgelord.Detection.Detector
use edgelord.Detection.Legs.{Built, detect-Built}
use edgelord.Solver.FrankWolfe.{FrankWolfeConfig}
use edgelord.Strategy.Context.{MarketContext, DetectionContext, order_book}
use edgelord.Strategy.Engine.{Strategy}

pub record CombinatorialConfig (D : Type 0) : Type 0 where
  pub max_iterations : ℕ
  pub tolerance : D
  pub gap_threshold : D
  pub enabled : Bool

-- `ProjectionSolver`.
abbrev pub Projection : Type 0 → Type 0 → Type 0
Projection D E = List D → IlpProblem D → Result (ProjectionResult D) E

pub record ClusterDetector (D E : Type 0) : Type 0 where
  pub config : ClusterDetectionConfig D
  pub project : Projection D E

pub record CombinatorialStrategy (D E F : Type 0) : Type 0 where
  pub config : CombinatorialConfig D
  pub fw : FrankWolfeConfig D
  pub cluster_cache : Option (ClusterCache D F)
  pub registry : Option (MarketRegistry D)
  pub detector : Option (ClusterDetector D E)
  pub projection_solver : Option (Projection D E)

abbrev pub detector_config : {D : Type 0} → CombinatorialConfig D → ClusterDetectionConfig D
detector_config config = record {
  debounce_ms = 100;
  min_gap = config.gap_threshold;
  max_clusters_per_cycle = 50;
}

module _ {D E : Type 0} where
  abbrev pub detector_for :
      CombinatorialConfig D → Option (Projection D E) → Option (ClusterDetector D E)
  detector_for config none = none
  detector_for config (some project) =
      some (record { config = detector_config config; project = project })

module _ {D F : Type 0} where
  abbrev has_cached_relations : Time → Option (ClusterCache D F) → MarketId → Bool
  has_cached_relations now none m = false
  has_cached_relations now (some cache) m = has_relations now m cache

  -- `first().map(...).unwrap_or(false)`.
  abbrev first_has_relations : Time → Option (ClusterCache D F) → List MarketId → Bool
  first_has_relations now cache [] = false
  first_has_relations now cache (m ∷ ms) = has_cached_relations now cache m

module _ {D E F : Type 0} where
  abbrev pub new : CombinatorialConfig D → CombinatorialStrategy D E F
  new config = record {
    config = config;
    fw = record { max_iterations = config.max_iterations; tolerance = config.tolerance };
    cluster_cache = none;
    registry = none;
    detector = none;
    projection_solver = none;
  }

  unfoldable pub update_detector : CombinatorialStrategy D E F → CombinatorialStrategy D E F
  update_detector s = record s { detector = detector_for s.config s.projection_solver }

  unfoldable pub set_cache :
      ClusterCache D F → CombinatorialStrategy D E F → CombinatorialStrategy D E F
  set_cache cache s = update_detector (record s { cluster_cache = some cache })

  unfoldable pub set_registry :
      MarketRegistry D → CombinatorialStrategy D E F → CombinatorialStrategy D E F
  set_registry registry s = record s { registry = some registry }

  unfoldable pub set_projection_solver :
      Projection D E → CombinatorialStrategy D E F → CombinatorialStrategy D E F
  set_projection_solver project s = update_detector (record s { projection_solver = some project })

  unfoldable pub applies_to : Time → CombinatorialStrategy D E F → MarketContext → Bool
  applies_to now s ctx =
      if s.config.enabled
      then (if ctx.has_dependencies
          then true
          else first_has_relations now s.cluster_cache ctx.correlated_markets)
      else false

module _ {D : Type 0} where
  abbrev reported : {X : Type 0} → Result (Option (ClusterOpportunity D)) X → List (Opportunity D)
  reported (err e) = []
  reported (ok none) = []
  reported (ok (some c)) = c.opportunity ∷ []

module _ {D E F : Type 0} ⦃d : Decimal D⦄ where
  unfoldable pub detect_cluster :
      MarketRegistry D
      → ClusterDetector D E
      → DetectionContext D
      → Option (Cluster D F)
      → List (Opportunity D)
  detect_cluster registry detector ctx none = []
  detect_cluster registry detector ctx (some cluster) =
      reported (Detector.detect detector.project detector.config (order_book ctx) registry cluster)

  unfoldable pub detect :
      Time → CombinatorialStrategy D E F → DetectionContext D → List (Opportunity D)
  detect now s ctx = elim s.cluster_cache [
    | none ↦ []
    | some cache ↦ elim s.registry [
      | none ↦ []
      | some registry ↦ elim s.detector [
        | none ↦ []
        | some detector ↦
            detect_cluster registry detector ctx (get_for_market now ctx.market.market_id cache)
      ]
    ]
  ]

  abbrev pub as_strategy : Time → CombinatorialStrategy D E F → Strategy D
  as_strategy now s = record {
    name = "combinatorial";
    applies_to = applies_to now s;
    detect = detect now s;
  }
