-- ===== src/Strategy/Context.antt =====
-- What a strategy sees of a market: `MarketContext` of src/port/inbound/strategy.rs and
-- `MarketDetectionContext` of src/application/orchestration/context.rs.
use edgelord.Common.{
  ℕ, Bool, false, not, List, [], Option, none, some, ltb, nat_beq, is_empty, if◌then◌else◌, ◌>>=◌,
}
use edgelord.Domain.Id.{TokenId, MarketId}
use edgelord.Domain.Book.{Book, PriceLevel, best_ask, best_bid}
use edgelord.Domain.Market.Registry.{Market, outcome_count}
use edgelord.Domain.Market.Registry
use edgelord.Cache.Books.{BookCache, get}

pub record MarketContext : Type 0 where
  pub outcome_count : ℕ
  pub has_dependencies : Bool
  pub correlated_markets : List MarketId

abbrev pub binary : MarketContext
binary = record { outcome_count = 2; has_dependencies = false; correlated_markets = [] }

abbrev pub multi_outcome : ℕ → MarketContext
multi_outcome n = record { outcome_count = n; has_dependencies = false; correlated_markets = [] }

abbrev pub with_dependencies : List MarketId → MarketContext → MarketContext
with_dependencies ms c = record c { has_dependencies = not (is_empty ms); correlated_markets = ms }

abbrev pub is_binary : MarketContext → Bool
is_binary c = nat_beq c.outcome_count 2

abbrev pub is_multi_outcome : MarketContext → Bool
is_multi_outcome c = ltb 2 c.outcome_count

pub record DetectionContext (D : Type 0) : Type 0 where
  pub market : Market D
  pub cache : BookCache D
  pub market_ctx : MarketContext

module _ {D : Type 0} where
  abbrev pub context_of : Market D → MarketContext
  context_of m = if Registry.is_binary m then binary else multi_outcome (outcome_count m)

  unfoldable pub new : Market D → BookCache D → DetectionContext D
  new m cache = record { market = m; cache = cache; market_ctx = context_of m }

  abbrev pub order_book : DetectionContext D → TokenId → Option (Book D)
  order_book ctx t = get t ctx.cache

  -- The first ask of the book of a token, as the strategies read it.
  abbrev pub ask_level : DetectionContext D → TokenId → Option (PriceLevel D)
  ask_level ctx t = order_book ctx t >>= best_ask

  abbrev pub price_of : Option (PriceLevel D) → Option D
  price_of none = none
  price_of (some l) = some l.price

  abbrev pub size_of : Option (PriceLevel D) → Option D
  size_of none = none
  size_of (some l) = some l.size

  abbrev pub ask_price : DetectionContext D → TokenId → Option D
  ask_price ctx t = price_of (ask_level ctx t)

  abbrev pub bid_price : DetectionContext D → TokenId → Option D
  bid_price ctx t = price_of (order_book ctx t >>= best_bid)

  abbrev pub ask_volume : DetectionContext D → TokenId → Option D
  ask_volume ctx t = size_of (ask_level ctx t)
