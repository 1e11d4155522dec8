-- ===== src/Orchestration/Feed.antt =====
-- The event loop of src/infrastructure/orchestration/runtime.rs, over the stream of
-- src/adapter/outbound/polymarket/stream.rs: each event of `next_event` goes to `handle_market_event`.
use edgelord.Common.{
  ℕ, zero, suc, List, [], ◌∷◌, Option, none, some, String, ◌==◌, string_eq, if◌then◌else◌,
}
use edgelord.Money.{Decimal}
use edgelord.Domain.Id.{TokenId}
use edgelord.Domain.Opportunity.{Opportunity}
use edgelord.Exchange.Event.{MarketEvent}
use edgelord.Orchestration.World.{World}
use edgelord.Orchestration.Event.{Services, handle_market_event}
use edgelord.Polymarket.Stream.{
  PolymarketBookMessage, PolymarketWsMessage, PolymarketDataStream, next_event,
}

-- The first message for the token.
unfoldable pub first_for : TokenId → List PolymarketBookMessage → Option PolymarketBookMessage
first_for t [] = none
first_for t (m ∷ ms) = if m.asset_id == t then some m else first_for t ms

module _ {D : Type 0} ⦃d : Decimal D⦄ (x : Services D) (parse_decimal : String → Option D) where
  module _ (from_str : String → Option PolymarketWsMessage) where
    -- A number of turns of the event loop; the loop ends when the stream does.
    unfoldable pub feed : ℕ → PolymarketDataStream → World D → PolymarketDataStream × World D
    feed zero s w = (s, w)
    feed (suc n) s w =
        let (event, t) = next_event parse_decimal from_str s in
        elim event [ none ↦ (t, w) | some e ↦ feed n t (handle_market_event x e w) ]

  handled : List (MarketEvent D) → World D → World D
  handled [] w = w
  handled (e ∷ es) w = handled es (handle_market_event x e w)
