-- ===== src/Exchange/Event.antt =====
-- src/port/outbound/exchange.rs: what a stream of market data delivers.
use edgelord.Common.{String}
use edgelord.Domain.Id.{TokenId, MarketId}
use edgelord.Domain.Book.{Book}

pub data MarketEvent (D : Type 0) : Type 0 where
  connected : MarketEvent D
  disconnected : (reason : String) → MarketEvent D
  book_snapshot : (token_id : TokenId) (book : Book D) → MarketEvent D
  book_delta : (token_id : TokenId) (book : Book D) → MarketEvent D
  market_settled :
      (market_id : MarketId) (winning_outcome : String) (payout_per_share : D) → MarketEvent D
