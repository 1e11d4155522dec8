-- ===== src/Cache/Clusters.antt =====
-- src/application/cache/cluster.rs: `ClusterCache`. The clock is an argument.
pub mod Lookup
pub mod Relations
use edgelord.Common.{
  ℕ, ◌+◌, ◌≡◌, refl, sym, ap, ◌∙◌, Bool, true, false, not, ◌||◌, List, [], ◌∷◌, map, Option, none,
  some, ◌==◌, ==_iff, string_eq, if◌then◌else◌, ltb, length, filter, lookup, insert, remove,
  lookup-insert, lookup-remove, contains, values, ◌>>=◌, arith, Option-cases, Bool-cases, inl, inr,
}
use edgelord.Domain.Id.{MarketId, ClusterId, Time}
use edgelord.Domain.Relation.{Cluster}

pub record ClusterCache (D F : Type 0) : Type 0 where
  pub clusters : List (ClusterId × Cluster D F)
  pub market_index : List (MarketId × ClusterId)
  pub ttl : Time

-- The loop of `put` over the markets.
unfoldable pub index_markets :
    ClusterId → List MarketId → List (MarketId × ClusterId) → List (MarketId × ClusterId)
index_markets id [] index = index
index_markets id (m ∷ ms) index = index_markets id ms (insert m id index)

-- The loop of `remove` over the markets.
unfoldable pub unindex : List MarketId → List (MarketId × ClusterId) → List (MarketId × ClusterId)
unindex [] index = index
unindex (m ∷ ms) index = unindex ms (remove m index)

module _ {D F : Type 0} where
  abbrev pub new : Time → ClusterCache D F
  new ttl = record { clusters = []; market_index = []; ttl = ttl }

  -- A cluster that was found, unless it has expired.
  abbrev pub unexpired : Time → Time → Cluster D F → Option (Cluster D F)
  unexpired ttl now k = if ltb (k.updated_at + ttl) now then none else some k

  unfoldable pub get : Time → ClusterId → ClusterCache D F → Option (Cluster D F)
  get now id c = lookup id c.clusters >>= unexpired c.ttl now

  unfoldable pub get_for_market : Time → MarketId → ClusterCache D F → Option (Cluster D F)
  unfolding get
  get_for_market now m c = lookup m c.market_index >>= λ id. get now id c

  abbrev pub is_some : Option (Cluster D F) → Bool
  is_some none = false
  is_some (some k) = true

  abbrev pub has_relations : Time → MarketId → ClusterCache D F → Bool
  has_relations now m c = is_some (get_for_market now m c)

  unfoldable pub put : Cluster D F → ClusterCache D F → ClusterCache D F
  unfolding index_markets
  put k c = record c {
    market_index = index_markets k.id k.markets c.market_index;
    clusters = insert k.id k c.clusters;
  }

  unfoldable pub remove_cluster : ClusterId → ClusterCache D F → ClusterCache D F
  unfolding unindex
  remove_cluster id c = elim (lookup id c.clusters) [
    | none ↦ record c { clusters = remove id c.clusters }
    | some k ↦ record c {
      clusters = remove id c.clusters;
      market_index = unindex k.markets c.market_index;
    }
  ]

  unfoldable pub invalidate : MarketId → ClusterCache D F → ClusterCache D F
  invalidate m c = elim (lookup m c.market_index) [ none ↦ c | some id ↦ remove_cluster id c ]

  abbrev pub all_clusters : Time → ClusterCache D F → List (Cluster D F)
  all_clusters now c = filter (λ k. not (ltb (k.updated_at + c.ttl) now)) (values c.clusters)

  unfoldable pub remove_each : List ClusterId → ClusterCache D F → ClusterCache D F
  remove_each [] c = c
  remove_each (id ∷ ids) c = remove_each ids (remove_cluster id c)

  -- The cache, and how many clusters were removed.
  unfoldable pub prune_expired : Time → ClusterCache D F → ClusterCache D F × ℕ
  unfolding remove_each
  prune_expired now c =
      let expired = map (λ e. e.0) (filter (λ e. ltb (e.1.updated_at + c.ttl) now) c.clusters) in
      (remove_each expired c, length expired)
