-- ===== src/Examples/Detection.antt =====
-- A cluster of two markets, one of them with two outcomes, and a projection that finds a gap.
use edgelord.Common.{
  ℕ, ◌≡◌, refl, true, [], ◌∷◌, ok, contains, string_eq, String, arith, some, filter, lookup, insert,
}
use edgelord.Common.Int.{ℤ, pos}
use edgelord.Money.Cents.{cents}
use edgelord.Domain.Relation.{Cluster}
use edgelord.Domain.Market.Registry.{empty, add, get_by_market_id}
use edgelord.Examples.Data.{rain, election, cache, leg}
use edgelord.Detection.Service.{ClusterDetectionService, detect_cluster, find_cluster}
use edgelord.Cache.Books.{get}
use edgelord.Detection.Detector.{
  ClusterOpportunity, detect, gather_prices, price_of, detect_priced, build_opportunity, legs_of,
}
use edgelord.Detection.Drain.{reported_in, IsAmong, reported-dirty}

abbrev cluster : Cluster ℤ ℕ
cluster = record {
  id = "weather";
  markets = "election" ∷ "rain" ∷ [];
  relations = [];
  constraints = [];
  updated_at = 10;
}

abbrev service : ClusterDetectionService ℤ String ℕ
service = record {
  config = record { debounce_ms = 100; min_gap = pos 2; max_clusters_per_cycle = 1 };
  order_book_cache = cache;
  cluster_cache = record {
    clusters = ("weather", cluster) ∷ [];
    market_index = ("election", "weather") ∷ ("rain", "weather") ∷ [];
    ttl = 100;
  };
  registry = add (add empty rain) election;
  project = λ prices problem.
      ok (record { values = prices; gap = pos 5; iterations = 3; converged = true });
  token_to_market = [];
  dirty_clusters = "gone" ∷ "weather" ∷ [];
}

weather_dirty : contains "weather" service.dirty_clusters ≡ true
unfolding contains
weather_dirty = refl

abbrev weather : ClusterOpportunity ℤ
weather = record {
  cluster_id = "weather";
  markets = "election" ∷ "rain" ∷ [];
  gap = pos 5;
  opportunity = record {
    market_id = "election";
    question = "Who wins?";
    legs = leg "a" 20 ∷ leg "yes" 40 ∷ [];
    volume = pos 5;
    payout = pos 100;
    strategy = "";
  };
}

weather_found : detect_cluster 20 service "weather" ≡ ok (some weather)
unfolding detect_cluster find_cluster filter detect gather_prices price_of get_by_market_id lookup
    add insert get detect_priced build_opportunity legs_of
weather_found = refl

reported-dirty_example : IsAmong weather (reported_in 20 2 service)
reported-dirty_example =
    reported-dirty 20 2 service "weather" weather (omega arith) weather_dirty weather_found
