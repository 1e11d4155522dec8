-- ===== src/Inference/Batches.antt =====
-- `run_full_inference` of src/application/inference/service.rs, and what
-- src/infrastructure/orchestration/inference.rs tells the notifiers of its result.
use edgelord.Common.{
  ℕ, suc, ◌+◌, List, [], ◌∷◌, ◌++◌, map, String, Option, none, some, Result, ok, err, length,
  is_empty, ltb, ◌==◌, string_eq, if◌then◌else◌,
}
use edgelord.Money.{Decimal}
use edgelord.Domain.Id.{MarketId, ClusterId, Time}
use edgelord.Domain.Relation.{
  Relation, RelationKind, implies, mutually_exclusive, exactly_one, linear, kind_market_ids,
}
use edgelord.Exchange.Pool.{chunks}
use edgelord.Cache.Clusters.{ClusterCache}
use edgelord.Cache.Clusters.Relations.{put_relations}
use edgelord.Inference.Inferrer.{MarketSummary}

pub record InferenceResult (D F : Type 0) : Type 0 where
  pub markets_processed : ℕ
  pub relations_discovered : ℕ
  pub batches_run : ℕ
  pub relations : List (Relation D F)

-- The variables of the loop, and the cache.
pub record Run (D F : Type 0) : Type 0 where
  pub total_relations : ℕ
  pub batches_run : ℕ
  pub all_relations : List (Relation D F)
  pub cache : ClusterCache D F

-- The inferrer, called with the number of the batch, and what the cache reads in that turn: the
-- identifier of a new cluster and the clock.
pub record Inferrer (D F E : Type 0) : Type 0 where
  pub infer : ℕ → List MarketSummary → Result (List (Relation D F)) E
  pub cluster_id : ℕ → ClusterId
  pub clock : ℕ → Time

module _ {D F E : Type 0} ⦃d : Decimal D⦄ (x : Inferrer D F E) where
  -- The arms of the `match`.
  unfoldable pub after_batch : ℕ → Result (List (Relation D F)) E → Run D F → Run D F
  after_batch i (err e) r = r
  after_batch i (ok relations) r =
      if is_empty relations then record r { batches_run = suc r.batches_run } else record {
        total_relations = r.total_relations + length relations;
        batches_run = suc r.batches_run;
        all_relations = r.all_relations ++ relations;
        cache = put_relations (x.cluster_id i) (x.clock i) relations r.cache;
      }

  -- The body of the loop.
  unfoldable pub run_batch : ℕ → List MarketSummary → Run D F → Run D F
  unfolding after_batch
  run_batch i chunk r = if ltb (length chunk) 2 then r else after_batch i (x.infer i chunk) r

  unfoldable pub run_batches : ℕ → List (List MarketSummary) → Run D F → Run D F
  run_batches i [] r = r
  run_batches i (chunk ∷ rest) r = run_batches (suc i) rest (run_batch i chunk r)

  abbrev pub no_run : ClusterCache D F → Run D F
  no_run cache = record { total_relations = 0; batches_run = 0; all_relations = []; cache = cache }

  -- `chunks` panics for a size of 0.
  unfoldable pub run_full_inference :
      List MarketSummary
      → (batch_size : ℕ) → ClusterCache D F
      → InferenceResult D F × ClusterCache D F
  run_full_inference markets batch_size cache =
      let r = run_batches 0 (chunks batch_size markets) (no_run cache) in
      if ltb (length markets) 2
      then (
        record {
          markets_processed = length markets;
          relations_discovered = 0;
          batches_run = 0;
          relations = [];
        },
        cache,
      )
      else (
        record {
          markets_processed = length markets;
          relations_discovered = r.total_relations;
          batches_run = r.batches_run;
          relations = r.all_relations;
        },
        r.cache,
      )

-- `RelationKind::type_name`.
unfoldable pub type_name : {D : Type 0} → RelationKind D → String
type_name (implies a b) = "implies"
type_name (mutually_exclusive ms) = "mutually_exclusive"
type_name (exactly_one ms) = "exactly_one"
type_name (linear terms sense rhs) = "linear"

pub record RelationDetail (F : Type 0) : Type 0 where
  pub relation_type : String
  pub confidence : F
  pub market_questions : List String
  pub reasoning : String

pub record RelationsEvent (F : Type 0) : Type 0 where
  pub relations_count : ℕ
  pub relations : List (RelationDetail F)

-- `find`.
unfoldable pub question_of : MarketId → List MarketSummary → Option String
question_of id [] = none
question_of id (m ∷ ms) = if m.id == id then some m.question else question_of id ms

-- `filter_map`.
unfoldable pub questions : List MarketSummary → List MarketId → List String
questions summaries [] = []
questions summaries (id ∷ ids) =
    let rest = questions summaries ids in
    elim (question_of id summaries) [ none ↦ rest | some question ↦ question ∷ rest ]

module _ {D F : Type 0} where
  abbrev pub detail_of : List MarketSummary → Relation D F → RelationDetail F
  detail_of summaries r = record {
    relation_type = type_name r.kind;
    confidence = r.confidence;
    market_questions = questions summaries (kind_market_ids r.kind);
    reasoning = r.reasoning;
  }

  -- The event of `run_startup_inference`, if there is one.
  unfoldable pub relations_event :
      List MarketSummary → InferenceResult D F → Option (RelationsEvent F)
  relations_event summaries result =
      if is_empty result.relations
      then none
      else some (record {
        relations_count = result.relations_discovered;
        relations = map (detail_of summaries) result.relations;
      })
