-- ===== src/Detection/Service.antt =====
-- src/application/cluster/service.rs: `ClusterDetectionService`. The set of dirty clusters is a list, in
-- the order in which the hash set is walked.
use edgelord.Common.{
  ℕ, List, [], ◌∷◌, Option, none, some, ok, err, Result, lookup, insert, set_insert, set_remove,
  ◌==◌, string_eq, if◌then◌else◌, ◌>>=◌,
}
use edgelord.Money.{Decimal}
use edgelord.Domain.Id.{MarketId, TokenId, ClusterId, Time}
use edgelord.Domain.Market.Registry.{MarketRegistry, Market, token_ids}
use edgelord.Domain.Relation.{Cluster}
use edgelord.Cache.Books
use edgelord.Cache.Books.{BookCache}
use edgelord.Cache.Clusters.{ClusterCache, get_for_market, all_clusters}
use edgelord.Exchange.Pool.{take}
use edgelord.Detection.Detector.{
  ClusterDetectionConfig, ClusterOpportunity, DetectionError, cluster_not_found, IlpProblem,
  ProjectionResult, detect,
}

pub record ClusterDetectionService (D E F : Type 0) : Type 0 where
  pub config : ClusterDetectionConfig D
  pub order_book_cache : BookCache D
  pub cluster_cache : ClusterCache D F
  pub registry : MarketRegistry D
  -- `ProjectionSolver::project`.
  pub project : List D → IlpProblem D → Result (ProjectionResult D) E
  pub token_to_market : List (TokenId × MarketId)
  pub dirty_clusters : List ClusterId

unfoldable pub index_tokens :
    MarketId → List TokenId → List (TokenId × MarketId) → List (TokenId × MarketId)
index_tokens m [] index = index
index_tokens m (t ∷ ts) index = index_tokens m ts (insert t m index)

unfoldable pub index_market_tokens :
    {D : Type 0} → List (Market D) → List (TokenId × MarketId) → List (TokenId × MarketId)
index_market_tokens [] index = index
index_market_tokens (m ∷ ms) index =
    index_market_tokens ms (index_tokens m.market_id (token_ids m) index)

unfoldable pub remove_ids : List ClusterId → List ClusterId → List ClusterId
remove_ids [] dirty = dirty
remove_ids (id ∷ ids) dirty = remove_ids ids (set_remove id dirty)

-- The block under the lock: the clusters to look at now, and those that stay dirty.
unfoldable pub take_dirty : ℕ → List ClusterId → List ClusterId × List ClusterId
take_dirty limit dirty = let now = take limit dirty in (now, remove_ids now dirty)

module _ {D E F : Type 0} where
  unfoldable pub new :
      ClusterDetectionConfig D
      → BookCache D
      → ClusterCache D F
      → MarketRegistry D
      → (List D → IlpProblem D → Result (ProjectionResult D) E)
      → ClusterDetectionService D E F
  new config order_book_cache cluster_cache registry project = record {
    config = config;
    order_book_cache = order_book_cache;
    cluster_cache = cluster_cache;
    registry = registry;
    project = project;
    token_to_market = index_market_tokens registry.markets [];
    dirty_clusters = [];
  }

  unfoldable pub handle_update :
      Time → TokenId → ClusterDetectionService D E F → ClusterDetectionService D E F
  handle_update now t s =
      elim (lookup t s.token_to_market >>= λ m. get_for_market now m s.cluster_cache) [
        | none ↦ s
        | some cluster ↦ record s { dirty_clusters = (set_insert cluster.id s.dirty_clusters).0 }
      ]

module _ {D F : Type 0} where
  unfoldable pub find_cluster : ClusterId → List (Cluster D F) → Option (Cluster D F)
  find_cluster id [] = none
  find_cluster id (c ∷ cs) = if c.id == id then some c else find_cluster id cs

module _ {D E : Type 0} where
  abbrev pub keep_found :
      Result (Option (ClusterOpportunity D)) (DetectionError D E)
      → List (ClusterOpportunity D)
      → List (ClusterOpportunity D)
  keep_found (ok (some found)) rest = found ∷ rest
  keep_found (ok none) rest = rest
  keep_found (err e) rest = rest

module _ {D E F : Type 0} ⦃d : Decimal D⦄ where
  unfoldable pub detect_cluster :
      Time
      → ClusterDetectionService D E F
      → ClusterId
      → Result (Option (ClusterOpportunity D)) (DetectionError D E)
  detect_cluster now s id = elim (find_cluster id (all_clusters now s.cluster_cache)) [
    | none ↦ err (cluster_not_found id)
    | some cluster ↦
        detect s.project s.config (λ t. Books.get t s.order_book_cache) s.registry cluster
  ]

  -- The loop over the clusters; errors are counted and logged only.
  unfoldable pub detect_each :
      Time → ClusterDetectionService D E F → List ClusterId → List (ClusterOpportunity D)
  detect_each now s [] = []
  detect_each now s (id ∷ ids) =
      let rest = detect_each now s ids in keep_found (detect_cluster now s id) rest

  unfoldable pub run_detection :
      Time
      → ClusterDetectionService D E F
      → List (ClusterOpportunity D) × ClusterDetectionService D E F
  run_detection now s =
      let (taken, left) = take_dirty s.config.max_clusters_per_cycle s.dirty_clusters in
      (detect_each now s taken, record s { dirty_clusters = left })
