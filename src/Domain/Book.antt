-- ===== src/Domain/Book.antt =====
-- src/domain/book.rs: order books. The best level of a side is the first.
use edgelord.Common.{List, [], ◌∷◌, Option, none, some}
use edgelord.Domain.Id.{TokenId}

pub record PriceLevel (D : Type 0) : Type 0 where
  pub price : D
  pub size : D

pub record Book (D : Type 0) : Type 0 where
  pub token_id : TokenId
  pub bids : List (PriceLevel D)
  pub asks : List (PriceLevel D)

module _ {D : Type 0} where
  abbrev first : List (PriceLevel D) → Option (PriceLevel D)
  first [] = none
  first (l ∷ ls) = some l

  unfoldable pub empty_book : TokenId → Book D
  empty_book t = record { token_id = t; bids = []; asks = [] }

  abbrev pub best_bid : Book D → Option (PriceLevel D)
  best_bid b = first b.bids

  abbrev pub best_ask : Book D → Option (PriceLevel D)
  best_ask b = first b.asks
