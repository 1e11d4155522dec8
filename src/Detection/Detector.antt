-- ===== src/Detection/Detector.antt =====
-- src/application/cluster/detector.rs, with the problems of src/port/outbound/solver.rs. The projection
-- is an argument; of an error the source keeps the text, the model the error.
use Prim.Native.String.{◌++◌ as append}
use edgelord.Common.{
  ℕ, suc, Bool, List, [], ◌∷◌, map, String, Option, none, some, Result, ok, err, length, ltb,
  replicate, if◌then◌else◌,
}
use edgelord.Money.{Decimal, ◌<?◌}
use edgelord.Domain.Id.{MarketId, TokenId, ClusterId}
use edgelord.Domain.Book.{Book, PriceLevel, best_ask}
use edgelord.Domain.Market.Registry.{Market, Outcome, MarketRegistry, get_by_market_id}
use edgelord.Domain.Opportunity
use edgelord.Domain.Opportunity.{Opportunity, OpportunityLeg}
use edgelord.Domain.Relation.{Cluster, Constraint}

pub data DetectionError (D E : Type 0) : Type 0 where
  cluster_not_found : ClusterId → DetectionError D E
  insufficient_markets : ClusterId → (count : ℕ) → DetectionError D E
  missing_price_data : MarketId → DetectionError D E
  solver_failed : E → DetectionError D E
  no_markets : DetectionError D E

pub record VariableBounds (D : Type 0) : Type 0 where
  pub lower : Option D
  pub upper : Option D

pub record LpProblem (D : Type 0) : Type 0 where
  pub objective : List D
  pub constraints : List (Constraint D)
  pub bounds : List (VariableBounds D)

pub record IlpProblem (D : Type 0) : Type 0 where
  pub lp : LpProblem D
  pub integer_vars : List ℕ

pub record ProjectionResult (D : Type 0) : Type 0 where
  pub values : List D
  pub gap : D
  pub iterations : ℕ
  pub converged : Bool

-- `0..n`.
unfoldable pub count_from : ℕ → List ℕ → List ℕ
count_from i [] = []
count_from i (k ∷ ks) = i ∷ count_from (suc i) ks

unfoldable pub all_binary : {D : Type 0} → LpProblem D → IlpProblem D
all_binary lp = record { lp = lp; integer_vars = count_from 0 (replicate (length lp.objective) 0) }

pub record ClusterDetectionConfig (D : Type 0) : Type 0 where
  pub debounce_ms : ℕ
  pub min_gap : D
  pub max_clusters_per_cycle : ℕ

pub record ClusterOpportunity (D : Type 0) : Type 0 where
  pub cluster_id : ClusterId
  pub markets : List MarketId
  pub gap : D
  pub opportunity : Opportunity D

abbrev first_outcome : List Outcome → Option Outcome
first_outcome [] = none
first_outcome (o ∷ os) = some o

module _ {D : Type 0} ⦃d : Decimal D⦄ where
  abbrev price_or_one : Option (PriceLevel D) → D
  price_or_one none = d.one
  price_or_one (some level) = level.price

  -- `VariableBounds::binary`.
  abbrev pub binary : VariableBounds D
  binary = record { lower = some d.nought; upper = some d.one }

module _ {D E : Type 0} ⦃d : Decimal D⦄ where
  -- The body of the loop over the markets.
  unfoldable pub price_of :
      (TokenId → Option (Book D))
      → MarketRegistry D
      → MarketId
      → Result (D × TokenId) (DetectionError D E)
  price_of book_lookup registry m = elim (get_by_market_id registry m) [
    | none ↦ err (missing_price_data m)
    | some market ↦ elim (first_outcome market.outcomes) [
      | none ↦ err (missing_price_data m)
      | some first ↦ elim (book_lookup first.token_id) [
        | none ↦ err (missing_price_data m)
        | some book ↦ ok (price_or_one (best_ask book), first.token_id)
      ]
    ]
  ]

  unfoldable pub gather_prices :
      (TokenId → Option (Book D))
      → MarketRegistry D
      → List MarketId
      → Result (List (D × TokenId)) (DetectionError D E)
  gather_prices book_lookup registry [] = ok []
  gather_prices book_lookup registry (m ∷ ms) = elim (price_of book_lookup registry m) [
    | err e ↦ err e
    | ok priced ↦ elim (gather_prices book_lookup registry ms) [
      | err e ↦ err e
      | ok rest ↦ ok (priced ∷ rest)
    ]
  ]

-- `zip`, and the legs.
unfoldable pub legs_of : {D : Type 0} → List TokenId → List D → List (OpportunityLeg D)
legs_of [] values = []
legs_of (t ∷ ts) [] = []
legs_of (t ∷ ts) (v ∷ vs) = record { token_id = t; ask_price = v } ∷ legs_of ts vs

abbrev question_of : {D : Type 0} → ClusterId → Option (Market D) → String
question_of id none = append "Cluster " id
question_of id (some market) = market.question

module _ {D F : Type 0} ⦃d : Decimal D⦄ where
  abbrev pub problem : Cluster D F → List D → IlpProblem D
  problem cluster prices = all_binary (record {
    objective = prices;
    constraints = cluster.constraints;
    bounds = replicate (length prices) binary;
  })

module _ {D E F : Type 0} ⦃d : Decimal D⦄ where
  unfoldable pub build_opportunity :
      Cluster D F
      → List TokenId
      → List D
      → D
      → MarketRegistry D
      → Result (Opportunity D) (DetectionError D E)
  build_opportunity cluster token_ids projected_prices gap registry = elim cluster.markets [
    | [] ↦ err no_markets
    | market_id ∷ others ↦ ok (
        Opportunity.new market_id (question_of cluster.id (get_by_market_id registry market_id))
          (legs_of token_ids projected_prices) gap d.one)
  ]

  -- The rest of `detect`, when the prices are there.
  unfoldable pub detect_priced :
      (project : List D → IlpProblem D → Result (ProjectionResult D) E)
      → ClusterDetectionConfig D
      → Cluster D F
      → MarketRegistry D
      → List (D × TokenId)
      → Result (Option (ClusterOpportunity D)) (DetectionError D E)
  detect_priced project config cluster registry priced =
      let prices = map (λ p. p.0) priced in
      if ltb (length prices) 2
      then err (insufficient_markets cluster.id (length prices))
      else elim (project prices (problem cluster prices)) [
        | err e ↦ err (solver_failed e)
        | ok result ↦
            if result.gap <? config.min_gap
            then ok none
            else elim (build_opportunity cluster (map (λ p. p.1) priced) result.values result.gap
                registry) [
                  | err e ↦ err e
                  | ok opportunity ↦ ok (
                      some (record {
                        cluster_id = cluster.id;
                        markets = cluster.markets;
                        gap = result.gap;
                        opportunity = opportunity;
                      }))
                ]
      ]

  unfoldable pub detect :
      (project : List D → IlpProblem D → Result (ProjectionResult D) E)
      → ClusterDetectionConfig D
      → (TokenId → Option (Book D))
      → MarketRegistry D
      → Cluster D F
      → Result (Option (ClusterOpportunity D)) (DetectionError D E)
  detect project config book_lookup registry cluster =
      elim (gather_prices book_lookup registry cluster.markets) [
        | err e ↦ err e
        | ok priced ↦ detect_priced project config cluster registry priced
      ]
