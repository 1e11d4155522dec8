-- ===== src/Cache/Clusters/Relations.antt =====
-- `put_relations` of src/application/cache/cluster.rs.
use edgelord.Common.{◌≡◌, ◌∙◌, true, List, [], ◌∷◌, is_empty, contains, string_eq, if◌then◌else◌}
use edgelord.Money.{Decimal}
use edgelord.Domain.Id.{MarketId, ClusterId, Time}
use edgelord.Domain.Relation.{Relation}
use edgelord.Domain.Cluster.{from_relations, all_market_ids, contains-cluster_markets}
use edgelord.Cache.Clusters.{ClusterCache, put, unexpired, get_for_market}
use edgelord.Cache.Clusters.Lookup.{get_for_market-put}

module _ {D F : Type 0} ⦃d : Decimal D⦄ where
  unfoldable pub put_relations :
      ClusterId → Time → List (Relation D F) → ClusterCache D F → ClusterCache D F
  put_relations id now relations c =
      if is_empty relations then c else put (from_relations id now relations) c

  markets-from_relations :
      (id : ClusterId) (now : Time) (m : MarketId) (rs : List (Relation D F))
      → contains m (from_relations id now rs).markets ≡ contains m (all_market_ids rs)
  unfolding from_relations
  markets-from_relations id now m rs = contains-cluster_markets m rs

  -- Every market that the relations name leads to the cluster built from them, until it expires.
  pub get_for_market-put_relations :
      (id : ClusterId) (now later : Time) (rs : List (Relation D F)) (c : ClusterCache D F)
      (m : MarketId)
      → contains m (all_market_ids rs) ≡ true
      → get_for_market later m (put_relations id now rs c)
        ≡ unexpired c.ttl later (from_relations id now rs)
  unfolding put_relations all_market_ids contains
  get_for_market-put_relations id now later [] c m h = cc
  get_for_market-put_relations id now later (r ∷ rs) c m h =
      let found = get_for_market-put later (from_relations id now (r ∷ rs)) c m in
      let there = markets-from_relations id now m (r ∷ rs) in found ∙ rw (there, h)
