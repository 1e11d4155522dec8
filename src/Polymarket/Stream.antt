-- ===== src/Polymarket/Stream.antt =====
-- src/adapter/outbound/polymarket/stream.rs, with dto/message.rs beside it: the data stream of the
-- exchange. A connection is the list of the frames that it will deliver, a ping with whether its pong
-- can be sent; how a text is read as JSON and how a decimal is read are parameters.
pub mod Queue
use edgelord.Common.{
  Bool, true, false, List, [], ◌∷◌, map, Option, none, some, String, Result, ok, err, Done, ◌>>=◌,
  if◌then◌else◌,
}
use edgelord.Domain.Id.{TokenId}
use edgelord.Domain.Book.{Book, PriceLevel}
use edgelord.Exchange.Event.{MarketEvent, disconnected, book_snapshot}

pub record PolymarketWsPriceLevel : Type 0 where
  pub price : String
  pub size : String

-- What `to_orderbook` reads of a message.
pub record PolymarketBookMessage : Type 0 where
  pub asset_id : String
  pub bids : List PolymarketWsPriceLevel
  pub asks : List PolymarketWsPriceLevel

pub data PolymarketWsMessage : Type 0 where
  books : (messages : List PolymarketBookMessage) → PolymarketWsMessage
  unknown : PolymarketWsMessage

-- A frame of the socket, or the error in its place.
pub data Frame : Type 0 where
  text : (text : String) → Frame
  ping : (answered : Bool) → Frame
  close : (reason : Option String) → Frame
  other : Frame
  failure : (error : String) → Frame

pub record PolymarketDataStream : Type 0 where
  pub ws : Option (List Frame)
  pub pending_books : List PolymarketBookMessage

-- `Vec::pop`, which takes the last element.
unfoldable pub pop {ℓ} : {A : Type ℓ} → List A → Option (A × List A)
pop [] = none
pop (a ∷ more) = elim (pop more) [ none ↦ some (a, []) | some (last, rest) ↦ some (last, a ∷ rest) ]

abbrev pub reason_or_empty : Option String → String
reason_or_empty none = ""
reason_or_empty (some reason) = reason

abbrev pub new : PolymarketDataStream
new = record { ws = none; pending_books = [] }

-- `connect`, with the connection that the exchange gives.
unfoldable pub connect :
    Result (List Frame) String → PolymarketDataStream → Done String × PolymarketDataStream
connect (ok frames) s = (ok tt, record s { ws = some frames })
connect (err e) s = (err e, s)

-- `subscribe`: whether the message is sent.
unfoldable pub subscribe :
    (sent : Done String) → PolymarketDataStream → Done String × PolymarketDataStream
subscribe sent s = elim s.ws [ none ↦ (err "Not connected", s) | some frames ↦ (sent, s) ]

-- The messages of a text, none if it is of another kind or cannot be read.
abbrev pub books_of : Option PolymarketWsMessage → List PolymarketBookMessage
books_of none = []
books_of (some unknown) = []
books_of (some (books messages)) = messages

module _ {D : Type 0} (parse_decimal : String → Option D) where
  -- `filter_map`: a level that cannot be read is left out.
  unfoldable pub parse_levels : List PolymarketWsPriceLevel → List (PriceLevel D)
  parse_levels [] = []
  parse_levels (level ∷ levels) =
      let rest = parse_levels levels in
      elim (parse_decimal level.price) [
        | none ↦ rest
        | some price ↦ elim (parse_decimal level.size) [
          | none ↦ rest
          | some size ↦ record { price = price; size = size } ∷ rest
        ]
      ]

  unfoldable pub to_orderbook : PolymarketBookMessage → Book D
  to_orderbook m = record {
    token_id = m.asset_id;
    bids = parse_levels m.bids;
    asks = parse_levels m.asks;
  }

  abbrev pub snapshot : PolymarketBookMessage → MarketEvent D
  snapshot m = book_snapshot m.asset_id (to_orderbook m)

  module _ (from_str : String → Option PolymarketWsMessage) where
    -- The loop, for no pending books.
    unfoldable pub receive : List Frame → Option (MarketEvent D) × PolymarketDataStream
    receive [] = (none, record { ws = some []; pending_books = [] })
    receive (text t ∷ frames) = elim (pop (books_of (from_str t))) [
      | none ↦ receive frames
      | some (book, rest) ↦
          (some (snapshot book), record { ws = some frames; pending_books = rest })
    ]
    receive (ping true ∷ frames) = receive frames
    receive (ping false ∷ frames) =
        (some (disconnected "Failed to send pong"), record { ws = some frames; pending_books = [] })
    receive (close reason ∷ frames) = (
      some (disconnected (reason_or_empty reason)),
      record { ws = some frames; pending_books = [] },
    )
    receive (other ∷ frames) = receive frames
    receive (failure e ∷ frames) =
        (some (disconnected e), record { ws = some frames; pending_books = [] })

    abbrev receive_from :
        PolymarketDataStream → Option (List Frame) → Option (MarketEvent D) × PolymarketDataStream
    receive_from s none = (none, s)
    receive_from s (some frames) = receive frames

    unfoldable pub next_event : PolymarketDataStream → Option (MarketEvent D) × PolymarketDataStream
    unfolding pop
    next_event s = elim (pop s.pending_books) [
      | some (book, rest) ↦ (some (snapshot book), record s { pending_books = rest })
      | none ↦ receive_from s s.ws
    ]
