-- ===== src/Cache/Clusters/Lookup.antt =====
-- Which cluster a market leads to after a cluster has been put or removed.
use edgelord.Common.{
  ◌≡◌, refl, ◌∙◌, List, [], ◌∷◌, none, some, ◌==◌, string_eq, if◌then◌else◌, ==_refl, lookup,
  insert, remove, lookup-insert, lookup-remove, contains, ◌>>=◌, arith, Option-cases, Bool-cases,
  inl, inr,
}
use edgelord.Domain.Id.{MarketId, ClusterId, Time}
use edgelord.Domain.Relation.{Cluster}
use edgelord.Cache.Clusters.{
  ClusterCache, unexpired, get, get_for_market, index_markets, unindex, put, remove_cluster,
}

lookup-index_markets :
    (id : ClusterId) (ms : List MarketId) (index : List (MarketId × ClusterId)) (m : MarketId)
    → lookup m (index_markets id ms index) ≡ (if contains m ms then some id else lookup m index)
unfolding index_markets contains
lookup-index_markets id [] index m = refl
lookup-index_markets id (k ∷ ms) index m =
    ground (arith, lookup-index_markets id ms (insert k id index) m, lookup-insert k m id index)

lookup-unindex :
    (ms : List MarketId) (index : List (MarketId × ClusterId)) (m : MarketId)
    → lookup m (unindex ms index) ≡ (if contains m ms then none else lookup m index)
unfolding unindex contains
lookup-unindex [] index m = refl
lookup-unindex (k ∷ ms) index m =
    ground (arith, lookup-unindex ms (remove k index) m, lookup-remove k m index)

module _ {D F : Type 0} where
  get-put :
      (now : Time) (k : Cluster D F) (c : ClusterCache D F) (id : ClusterId)
      → get now id (put k c) ≡ (if k.id == id then unexpired c.ttl now k else get now id c)
  unfolding get put
  get-put now k c id = rw (lookup-insert k.id id k c.clusters) (ground arith)

  -- After `put` of a cluster, its markets lead to it until it expires. Any other market leads to
  -- the cluster that it was indexed under, where that is another one, or else to the new one.
  pub get_for_market-put :
      (now : Time) (k : Cluster D F) (c : ClusterCache D F) (m : MarketId)
      → get_for_market now m (put k c) ≡ (
          if contains m k.markets
          then unexpired c.ttl now k
          else (lookup m c.market_index >>= λ id.
              if k.id == id then unexpired c.ttl now k else get now id c))
  unfolding get_for_market put get
  get_for_market-put now k c m = elim (Bool-cases (contains m k.markets)) [
    | inl e ↦
        rw (lookup-index_markets k.id k.markets c.market_index m, e)
          (get-put now k c k.id ∙ rw (==_refl k.id))
    | inr e ↦ elim (Option-cases (lookup m c.market_index)) [
      | inl f ↦ rw (lookup-index_markets k.id k.markets c.market_index m, e, f)
      | inr (id, f) ↦
          rw (lookup-index_markets k.id k.markets c.market_index m, e, f) (get-put now k c id)
    ]
  ]

  remove_cluster_found :
      (id : ClusterId) (k : Cluster D F) (c : ClusterCache D F)
      → lookup id c.clusters ≡ some k
      → remove_cluster id c ≡ record c {
        clusters = remove id c.clusters;
        market_index = unindex k.markets c.market_index;
      }
  unfolding remove_cluster
  remove_cluster_found id k c e = rw (e, remove_cluster)

  -- Removing a cluster makes every market in its list lead nowhere, and leaves what any other market
  -- leads to, unless that is the removed cluster.
  pub get_for_market-remove_cluster :
      (now : Time) (id : ClusterId) (k : Cluster D F) (c : ClusterCache D F) (m : MarketId)
      → lookup id c.clusters ≡ some k
      → get_for_market now m (remove_cluster id c) ≡ (
          if contains m k.markets
          then none
          else (lookup m c.market_index >>= λ j. if id == j then none else get now j c))
  unfolding get_for_market get
  get_for_market-remove_cluster now id k c m e = elim (Bool-cases (contains m k.markets)) [
    | inl h ↦ rw (remove_cluster_found id k c e, lookup-unindex k.markets c.market_index m, h)
    | inr h ↦ elim (Option-cases (lookup m c.market_index)) [
      | inl f ↦ rw (remove_cluster_found id k c e, lookup-unindex k.markets c.market_index m, h, f)
      | inr (j, f) ↦
          rw
            (
              remove_cluster_found id k c e,
              lookup-unindex k.markets c.market_index m,
              h,
              f,
              lookup-remove id j c.clusters,
            )
            (ground arith)
    ]
  ]
