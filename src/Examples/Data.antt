-- ===== src/Examples/Data.antt =====
-- Concrete data, in cents: a market with two outcomes and one with three, their books, and what the
-- strategies find on them.
use edgelord.Common.{ℕ, String, [], ◌∷◌, none, some, true, false}
use edgelord.Common.Int.{ℤ, pos}
use edgelord.Money.Cents.{cents, cents-IsExact}
use edgelord.Domain.Id.{TokenId}
use edgelord.Domain.Book.{Book, PriceLevel}
use edgelord.Domain.Market.Registry.{Market, Outcome}
use edgelord.Domain.Opportunity.{Opportunity, OpportunityLeg, with_strategy}
use edgelord.Domain.Position.{Position, opened}
use edgelord.Domain.Position
use edgelord.Cache.Books.{BookCache}
use edgelord.State.{AppState, RiskLimits}
use edgelord.Strategy.Context.{DetectionContext, context_of}
use edgelord.Strategy.SingleCondition.{SingleConditionConfig}
use edgelord.Strategy.Rebalancing.{MarketRebalancingConfig}
use edgelord.Orchestration.World.{World, Task}
use edgelord.Orchestration.Opportunity.{Config}
use edgelord.Orchestration.Execution.{Exchange}

abbrev pub level : ℕ → ℕ → PriceLevel ℤ
level price size = record { price = pos price; size = pos size }

abbrev pub book : TokenId → ℕ → ℕ → Book ℤ
book t price size = record { token_id = t; bids = []; asks = level price size ∷ [] }

abbrev pub outcome : TokenId → Outcome
outcome t = record { token_id = t; name = t }

abbrev pub rain : Market ℤ
rain = record {
  market_id = "rain";
  question = "Will it rain?";
  outcomes = outcome "yes" ∷ outcome "no" ∷ [];
  payout = pos 100;
}

abbrev pub election : Market ℤ
election = record {
  market_id = "election";
  question = "Who wins?";
  outcomes = outcome "a" ∷ outcome "b" ∷ outcome "c" ∷ [];
  payout = pos 100;
}

abbrev pub cache : BookCache ℤ
cache = record {
  books =
      ("yes", book "yes" 40 10000)
      ∷ ("no", book "no" 50 20000)
      ∷ ("a", book "a" 20 10000)
      ∷ ("b", book "b" 30 20000)
      ∷ ("c", book "c" 40 30000)
      ∷ [];
  has_sender = false;
  sent = [];
}

abbrev pub context : Market ℤ → DetectionContext ℤ
context m = record { market = m; cache = cache; market_ctx = context_of m }

abbrev pub single : SingleConditionConfig ℤ
single = record { min_edge = pos 5; min_profit = pos 50 }

abbrev pub rebalancing : MarketRebalancingConfig ℤ
rebalancing = record { min_edge = pos 3; min_profit = pos 100; max_outcomes = 10 }

abbrev pub leg : TokenId → ℕ → OpportunityLeg ℤ
leg t price = record { token_id = t; ask_price = pos price }

-- A hundred shares of both outcomes of `rain`, for 90.
abbrev pub found : Opportunity ℤ
found =
    with_strategy "rain" "Will it rain?" (leg "yes" 40 ∷ leg "no" 50 ∷ []) (pos 10000) (pos 100)
      "single_condition"

abbrev pub limits : RiskLimits ℤ
limits = record {
  max_position_per_market = pos 100000;
  max_total_exposure = pos 1000000;
  min_profit_threshold = pos 5;
  max_slippage = pos 2;
  execution_timeout_secs = 30;
}

abbrev pub position : ℕ → String → Position ℤ
position id market = Position.new id market [] (pos 9000) (pos 10000) 0 opened

abbrev pub idle : AppState ℤ
idle = record {
  positions = record {
    positions = position 1 "rain" ∷ position 2 "election" ∷ [];
    next_id_field = 3;
  };
  risk_limits = limits;
  circuit_breaker = false;
  circuit_breaker_reason = none;
  pending_executions = [];
  pending_exposure = pos 0;
}

abbrev pub busy : AppState ℤ
busy = record idle { pending_executions = "rain" ∷ []; pending_exposure = pos 9000 }

abbrev pub world : AppState ℤ → World ℤ
world s = record { state = s; cache = cache; stats = []; events = []; tasks = [] }

abbrev pub task : Task ℤ
task = record { opportunity = found; opportunity_id = some 7 }

abbrev pub config : Config ℤ
config = record {
  has_executor = true;
  dry_run = false;
  reply = λ r. some 7;
  show = λ e. "rejected";
}

abbrev pub exchange : Exchange ℤ
exchange = record { cancel = λ id. false; trade_reply = λ e. some 9 }
