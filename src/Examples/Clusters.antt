-- ===== src/Examples/Clusters.antt =====
-- Two clusters that share a market, and the outcomes of three markets.
use edgelord.Common.{
  Bool, true, false, not, ◌||◌, ◌↔◌, ◌≤◌, All, ℕ, ◌≡◌, refl, List, [], ◌∷◌, none, some,
  if◌then◌else◌, ◌==◌, string_eq, lookup, contains, ◌>>=◌,
}
use edgelord.Common.Int.{ℤ}
use edgelord.Money.Cents.{cents, cents-IsExact}
use edgelord.Domain.Id.{MarketId, ClusterId}
use edgelord.Domain.Relation.{
  Cluster, Indices, to_solver_constraints, implies, mutually_exclusive, exactly_one,
}
use edgelord.Domain.Relation.Count.{count_true, Satisfies}
use edgelord.Domain.Relation.Meaning.{truth, to_solver_constraints-Satisfies}
use edgelord.Cache.Clusters.{ClusterCache, get_for_market, get, remove_cluster}
use edgelord.Cache.Clusters.Lookup.{get_for_market-remove_cluster}

abbrev cluster : ClusterId → List MarketId → Cluster ℤ ℕ
cluster id markets = record {
  id = id;
  markets = markets;
  relations = [];
  constraints = [];
  updated_at = 10;
}

-- "rain" was in the older cluster and is now in the newer one.
abbrev cache : ClusterCache ℤ ℕ
cache = record {
  clusters =
      ("older", cluster "older" ("rain" ∷ "sun" ∷ []))
      ∷ ("newer", cluster "newer" ("rain" ∷ "snow" ∷ []))
      ∷ [];
  market_index = ("rain", "newer") ∷ ("sun", "older") ∷ ("snow", "newer") ∷ [];
  ttl = 100;
}

older_found : lookup "older" cache.clusters ≡ some (cluster "older" ("rain" ∷ "sun" ∷ []))
unfolding lookup
older_found = refl

get_for_market-remove_cluster_example : get_for_market 20 "rain" (remove_cluster "older" cache) ≡ (
    if contains "rain" (cluster "older" ("rain" ∷ "sun" ∷ [])).markets
    then none
    else (lookup "rain" cache.market_index >>= λ id.
        if "older" == id then none else get 20 id cache))
get_for_market-remove_cluster_example =
    get_for_market-remove_cluster 20 "older" (cluster "older" ("rain" ∷ "sun" ∷ [])) cache "rain"
      older_found

abbrev indices : Indices
indices = ("a", 0) ∷ ("b", 1) ∷ ("c", 2) ∷ []

abbrev outcomes : List Bool
outcomes = true ∷ false ∷ true ∷ []

a_true : truth indices outcomes "a" ≡ some true
unfolding lookup
a_true = refl

b_false : truth indices outcomes "b" ≡ some false
unfolding lookup
b_false = refl

to_solver_constraints-Satisfies_example :
    (All (Satisfies {D = ℤ} outcomes) (to_solver_constraints (implies "a" "b") indices)
      ↔ ((not true || false) ≡ true))
    × (All
          (Satisfies {D = ℤ} outcomes)
          (to_solver_constraints (mutually_exclusive ("a" ∷ "b" ∷ [])) indices)
        ↔ (count_true ("a" ∷ "b" ∷ []) indices outcomes ≤ 1))
    × (All
          (Satisfies {D = ℤ} outcomes)
          (to_solver_constraints (exactly_one ("a" ∷ "b" ∷ [])) indices)
        ↔ (count_true ("a" ∷ "b" ∷ []) indices outcomes ≡ 1))
to_solver_constraints-Satisfies_example =
    to_solver_constraints-Satisfies ℤ refl indices outcomes ("a" ∷ "b" ∷ []) "a" "b" true false refl
      a_true b_false
