-- ===== src/Examples/Stream.antt =====
-- A connection of the exchange: a text with two books for one token, a ping, and the end.
use edgelord.Common.{◌≡◌, true, List, [], ◌∷◌, String, Option, none, some}
use edgelord.Common.Int.{ℤ, pos}
use edgelord.Examples.Data.{config, rain}
use edgelord.Money.Cents.{cents}
use edgelord.Domain.Market.Registry.{empty, add}
use edgelord.Orchestration.Event.{Services}
use edgelord.Polymarket.Stream.{
  PolymarketBookMessage, PolymarketWsMessage, PolymarketDataStream, books, text, ping, close,
  next_event,
}
use edgelord.Polymarket.Stream.Queue.{head?, tail, to_come, next_event-queue}

abbrev parse_decimal : String → Option ℤ
parse_decimal s = some (pos 40)

abbrev message : String → PolymarketBookMessage
message price = record {
  asset_id = "yes";
  bids = [];
  asks = record { price = price; size = "100" } ∷ [];
}

abbrev two_books : List PolymarketBookMessage
two_books = message "0.40" ∷ message "0.41" ∷ []

abbrev from_str : String → Option PolymarketWsMessage
from_str s = some (books two_books)

abbrev stream : PolymarketDataStream
stream = record {
  ws = some (text "[]" ∷ ping true ∷ close none ∷ []);
  pending_books = message "0.39" ∷ [];
}

next_event-queue_example :
    ((next_event parse_decimal from_str stream).0 ≡ head? (to_come parse_decimal from_str stream))
    × (to_come parse_decimal from_str (next_event parse_decimal from_str stream).1
        ≡ tail (to_come parse_decimal from_str stream))
next_event-queue_example = next_event-queue parse_decimal from_str stream

-- No book that the loop handles lets a strategy find anything.
abbrev services : Services ℤ
services = record {
  config = config;
  registry = add empty rain;
  detect = λ c. [];
  show = λ amount. "1.00";
}
