-- ===== src/Examples/Inference.antt =====
-- A language model that relates two of the markets, and names one that it was not given.
use edgelord.Common.{
  refl, ℕ, suc, ◌<◌, ◌≡◌, ◌↔◌, [], ◌∷◌, List, none, some, String, ok, length, All,
}
use edgelord.Common.Int.{ℤ}
use edgelord.Money.Cents.{cents}
use edgelord.Domain.Relation.{kind_market_ids}
use edgelord.Cache.Clusters.{ClusterCache}
use edgelord.Telegram.Text.{Text, codes}
use edgelord.Inference.Inferrer.{MarketSummary, RawRelation}
use edgelord.Inference.Batches.{run_full_inference, detail_of}
use edgelord.Inference.Known.{RelationsKnown, ids_of}
use edgelord.Inference.Names.{at_each}
use edgelord.Inference.Sound.{Model, llm_inferrer, run_full_inference-Known}
use edgelord.Inference.Json.{extract_json, panicked, find, rfind, open_fence, extract_json_panics}

abbrev summary : String → MarketSummary
summary id = record { id = id; question = id; outcomes = "yes" ∷ "no" ∷ [] }

abbrev markets : List MarketSummary
markets = summary "rain" ∷ summary "snow" ∷ summary "sun" ∷ []

abbrev raw : String → RawRelation ℕ
raw name = record {
  kind = "mutually_exclusive";
  if_yes = none;
  then_yes = none;
  markets = some ("M1" ∷ name ∷ []);
  confidence = 9;
  reasoning = "weather";
}

abbrev model : Model ℕ String
model = record {
  complete = λ i chunk. ok (raw "M2" ∷ raw "M9" ∷ []);
  relation_id = λ i n. "relation";
  now = λ i. 10;
  ttl = 100;
  cluster_id = λ i. "cluster";
}

abbrev nothing_cached : ClusterCache ℤ ℕ
nothing_cached = record { clusters = []; market_index = []; ttl = 100 }

run_full_inference-Known_example :
    RelationsKnown markets
      (run_full_inference (llm_inferrer ℤ model) markets 2 nothing_cached).0.relations
    × ((run_full_inference (llm_inferrer ℤ model) markets 2 nothing_cached).0.relations_discovered
        ≡ length (run_full_inference (llm_inferrer ℤ model) markets 2 nothing_cached).0.relations)
    × All
        (λ r. length (detail_of markets r).market_questions ≡ length (kind_market_ids r.kind))
        (run_full_inference (llm_inferrer ℤ model) markets 2 nothing_cached).0.relations
run_full_inference-Known_example = run_full_inference-Known model markets 2 nothing_cached

abbrev crossed : Text
crossed = codes "} or {"

extract_json_panics_example : (extract_json crossed ≡ panicked) ↔ (
    (find open_fence crossed ≡ none)
    × ((i : ℕ) × (j : ℕ) × (find (codes "{") crossed ≡ some i)
        × (rfind 125 crossed ≡ some j)
        × (suc j < i)))
extract_json_panics_example = extract_json_panics crossed

both_found : at_each (ids_of markets) (2 ∷ 0 ∷ []) ≡ some ("sun" ∷ "rain" ∷ [])
unfolding at_each
both_found = refl
