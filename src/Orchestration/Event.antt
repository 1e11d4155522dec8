-- ===== src/Orchestration/Event.antt =====
-- src/application/orchestration/event.rs: `handle_market_event`.
use edgelord.Common.{List, [], ◌∷◌, ◌++◌, map, String, none, some}
use edgelord.Money.{Decimal}
use edgelord.Domain.Id.{TokenId, MarketId}
use edgelord.Domain.Book.{Book}
use edgelord.Domain.Market.Registry.{MarketRegistry, get_by_token}
use edgelord.Domain.Opportunity.{Opportunity}
use edgelord.Exchange.Event.{
  MarketEvent, connected, disconnected, book_snapshot, book_delta, market_settled,
}
use edgelord.Cache.Books.{update}
use edgelord.Settlement.{settlement, close_all_for_market, calculate_arbitrage_pnl}
use edgelord.Strategy.Context.{DetectionContext, new}
use edgelord.Orchestration.World.{World, call, record_latency, record_trade_close}
use edgelord.Orchestration.Opportunity.{Config, handle_opportunity}

-- The registry, the strategy engine and the printing of decimals, with `Config`.
pub record Services (D : Type 0) : Type 0 where
  pub config : Config D
  pub registry : MarketRegistry D
  pub detect : DetectionContext D → List (Opportunity D)
  pub show : D → String

module _ {D : Type 0} ⦃d : Decimal D⦄ (x : Services D) where
  -- The loop over the detected opportunities.
  unfoldable pub handle_each : List (Opportunity D) → World D → World D
  handle_each [] w = w
  handle_each (o ∷ os) w = handle_each os (handle_opportunity x.config o w)

  -- The arms for `BookSnapshot` and `BookDelta`, which do the same.
  unfoldable pub handle_book : TokenId → Book D → World D → World D
  handle_book t book w =
      let v = record w { cache = update book w.cache } in
      call record_latency (elim (get_by_token x.registry t) [
        | none ↦ v
        | some market ↦ handle_each (x.detect (new market v.cache)) v
      ])

  unfoldable pub settle_market : MarketId → String → D → World D → World D
  settle_market m winning_outcome payout_per_share w =
      let p =
        close_all_for_market x.show (λ pos. calculate_arbitrage_pnl pos payout_per_share)
          (settlement winning_outcome) w.state.positions m in
      record w {
        state = record w.state { positions = p.tracker };
        stats = w.stats ++ map record_trade_close p.events;
      }

  unfoldable pub handle_market_event : MarketEvent D → World D → World D
  unfolding handle_book settle_market
  handle_market_event connected w = w
  handle_market_event (disconnected reason) w = w
  handle_market_event (book_snapshot t book) w = handle_book t book w
  handle_market_event (book_delta t book) w = handle_book t book w
  handle_market_event (market_settled m outcome payout) w = settle_market m outcome payout w
