-- ===== src/Orchestration/World.antt =====
-- What the handlers of src/application/orchestration act on: the shared state, the book cache, and
-- the calls that they make of the statistics recorder and of the notifiers, first call first.
use edgelord.Common.{ℕ, Bool, List, [], ◌∷◌, ◌++◌, String, Option}
use edgelord.Domain.Id.{TokenId, MarketId}
use edgelord.Domain.Opportunity.{Opportunity}
use edgelord.Domain.Trade.{TradeResult}
use edgelord.Cache.Books.{BookCache}
use edgelord.Risk.{RiskError}
use edgelord.State.{AppState}
use edgelord.Settlement.{TradeCloseEvent}

-- src/domain/stats.rs.
pub record RecordedOpportunity (D : Type 0) : Type 0 where
  pub strategy : String
  pub market_ids : List String
  pub edge : D
  pub expected_profit : D
  pub executed : Bool
  pub rejected_reason : Option String

pub record TradeLeg (D : Type 0) : Type 0 where
  pub token_id : TokenId
  pub side : String
  pub price : D
  pub size : D

pub record TradeOpenEvent (D : Type 0) : Type 0 where
  pub opportunity_id : ℕ
  pub strategy : String
  pub market_ids : List String
  pub legs : List (TradeLeg D)
  pub size : D
  pub expected_profit : D

pub data StatsCall (D : Type 0) : Type 0 where
  record_opportunity : RecordedOpportunity D → StatsCall D
  record_trade_open : TradeOpenEvent D → StatsCall D
  record_trade_close : TradeCloseEvent D → StatsCall D
  update_peak_exposure : D → StatsCall D
  record_latency : StatsCall D

-- The events of src/port/outbound/notifier.rs that the handlers raise.
pub data Event (D : Type 0) : Type 0 where
  opportunity_detected : Opportunity D → Event D
  risk_rejected : MarketId → RiskError D → Event D
  execution_completed : MarketId → TradeResult → Event D
  execution_failed : MarketId → String → Event D

-- A spawned execution: the opportunity, and the identifier that it was recorded under.
pub record Task (D : Type 0) : Type 0 where
  pub opportunity : Opportunity D
  pub opportunity_id : Option ℕ

pub record World (D : Type 0) : Type 0 where
  pub state : AppState D
  pub cache : BookCache D
  pub stats : List (StatsCall D)
  pub events : List (Event D)
  pub tasks : List (Task D)

module _ {D : Type 0} where
  abbrev pub call : StatsCall D → World D → World D
  call c w = record w { stats = w.stats ++ (c ∷ []) }

  abbrev pub notify : Event D → World D → World D
  notify e w = record w { events = w.events ++ (e ∷ []) }

  abbrev pub spawn : Task D → World D → World D
  spawn t w = record w { tasks = w.tasks ++ (t ∷ []) }
