-- ===== src/Detection/Found.antt =====
-- Which opportunities the detection reports (src/application/cluster).
use edgelord.Common.{
  suc, ◌≤◌, ◌≡◌, refl, ap, List, [], ◌∷◌, map, Option, none, some, ok, Result, length, All, arith,
  inl, inr, Option-cases, Result-cases,
}
use edgelord.Money.{Decimal, ◌≼◌}
use edgelord.Domain.Id.{MarketId, TokenId, ClusterId, Time}
use edgelord.Domain.Book.{Book}
use edgelord.Domain.Market.Registry.{MarketRegistry}
use edgelord.Domain.Relation.{Cluster}
use edgelord.Cache.Books
use edgelord.Cache.Clusters.{all_clusters}
use edgelord.Detection.Detector.{
  ClusterDetectionConfig, ClusterOpportunity, IlpProblem, ProjectionResult, detect, detect_priced,
  gather_prices, price_of,
}
use edgelord.Detection.Service.{
  ClusterDetectionService, detect_cluster, detect_each, run_detection, take_dirty, find_cluster,
}

-- A reported opportunity reaches the threshold and spans two markets at least.
abbrev pub IsReportable : {D : Type 0} ⦃d : Decimal D⦄ → D → ClusterOpportunity D → Type 0
IsReportable min_gap o = (min_gap ≼ o.gap) × (2 ≤ length o.markets)

pub length-map : {A B : Type 0} (f : A → B) (xs : List A) → length (map f xs) ≡ length xs
length-map f [] = refl
length-map f (x ∷ xs) = ap suc (length-map f xs)

module _ {D E : Type 0} ⦃d : Decimal D⦄ where
  pub length-gather_prices :
      (book_lookup : TokenId → Option (Book D)) (registry : MarketRegistry D) (ms : List MarketId)
      {priced : List (D × TokenId)}
      → gather_prices {E = E} book_lookup registry ms ≡ ok priced
      → length priced ≡ length ms
  unfolding gather_prices
  length-gather_prices book_lookup registry [] h = ground (arith, h)
  length-gather_prices book_lookup registry (m ∷ ms) h =
      let first = price_of {E = E} book_lookup registry m in
      elim (Result-cases first) [
        | inr (e, p) ↦ absurd (ground (arith, h, p))
        | inl (a, p) ↦ elim (Result-cases (gather_prices {E = E} book_lookup registry ms)) [
          | inr (e, q) ↦ absurd (ground (arith, h, p, q))
          | inl (rest, q) ↦ ground (arith, h, p, q, length-gather_prices book_lookup registry ms q)
        ]
      ]

module _ {D E F : Type 0} ⦃d : Decimal D⦄ where
  detect_priced-IsReportable :
      (project : List D → IlpProblem D → Result (ProjectionResult D) E)
      (config : ClusterDetectionConfig D) (cluster : Cluster D F) (registry : MarketRegistry D)
      (priced : List (D × TokenId)) {o : ClusterOpportunity D}
      → detect_priced project config cluster registry priced ≡ ok (some o)
      → (config.min_gap ≼ o.gap)
        × (2 ≤ length (map (λ p. p.0) priced))
        × (o.markets ≡ cluster.markets)
  unfolding detect_priced
  detect_priced-IsReportable project config cluster registry priced h = ground (arith, h)

  detect-IsReportable :
      (project : List D → IlpProblem D → Result (ProjectionResult D) E)
      (config : ClusterDetectionConfig D) (book_lookup : TokenId → Option (Book D))
      (registry : MarketRegistry D) (cluster : Cluster D F) {o : ClusterOpportunity D}
      → detect project config book_lookup registry cluster ≡ ok (some o)
      → IsReportable config.min_gap o
  unfolding detect
  detect-IsReportable project config book_lookup registry cluster {o = o} h =
      elim (Result-cases (gather_prices {E = E} book_lookup registry cluster.markets)) [
        | inr (e, p) ↦ absurd (ground (arith, h, p))
        | inl (priced, p) ↦
            let found : detect_priced project config cluster registry priced ≡ ok (some o) =
              ground (arith, h, p) in
            let facts = detect_priced-IsReportable project config cluster registry priced found in
            let same = length-gather_prices {E = E} book_lookup registry cluster.markets p in
            ground (arith, facts, same, length-map (λ q. q.0) priced)
      ]

  detect_cluster-IsReportable :
      (now : Time) (s : ClusterDetectionService D E F) (id : ClusterId) {o : ClusterOpportunity D}
      → detect_cluster now s id ≡ ok (some o)
      → IsReportable s.config.min_gap o
  unfolding detect_cluster
  detect_cluster-IsReportable now s id {o = o} h =
      elim (Option-cases (find_cluster id (all_clusters now s.cluster_cache))) [
        | inl p ↦ absurd (ground (arith, h, p))
        | inr (cluster, p) ↦
            let found = λ (t : TokenId). Books.get t s.order_book_cache in
            detect-IsReportable s.project s.config found s.registry cluster {o = o}
              (ground (arith, h, p))
      ]

  detect_each-IsReportable :
      (now : Time) (s : ClusterDetectionService D E F) (ids : List ClusterId)
      → All (IsReportable s.config.min_gap) (detect_each now s ids)
  unfolding detect_each
  detect_each-IsReportable now s [] = tt
  detect_each-IsReportable now s (id ∷ ids) =
      let rest = detect_each-IsReportable now s ids in
      elim (Result-cases (detect_cluster now s id)) [
        | inr (e, p) ↦ ground (arith, p, rest)
        | inl (none, p) ↦ ground (arith, p, rest)
        | inl (some o, p) ↦ ground (arith, p, rest, detect_cluster-IsReportable now s id p)
      ]

  -- Every opportunity that a cycle reports has a gap of at least the threshold and spans at least two
  -- markets.
  pub run_detection-IsReportable :
      (now : Time) (s : ClusterDetectionService D E F)
      → All (IsReportable s.config.min_gap) (run_detection now s).0
  unfolding run_detection
  run_detection-IsReportable now s =
      detect_each-IsReportable now s (take_dirty s.config.max_clusters_per_cycle s.dirty_clusters).0
