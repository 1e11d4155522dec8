-- ===== src/System/Events.antt =====
-- An event of the exchange is a run of the system (src/application/orchestration/event.rs).
use edgelord.Common.{◌≡◌, sym, ap, subst, ◌∙◌, inl, inr, List, [], ◌∷◌, ◌++◌, All, Option-cases}
use mathlib.Core.List.{append-nil, append_assoc}
use edgelord.Money.{Decimal, ◌≼◌}
use edgelord.Domain.Id.{TokenId}
use edgelord.Domain.Book.{Book}
use edgelord.Domain.Market.Registry.{get_by_token}
use edgelord.Domain.Opportunity.{Opportunity}
use edgelord.Cache.Books.{update}
use edgelord.Strategy.Context.{DetectionContext, new}
use edgelord.Settlement.{settlement, calculate_arbitrage_pnl}
use edgelord.State.{RiskLimits}
use edgelord.Risk.{amount_of}
use edgelord.Orchestration.World.{World, Task}
use edgelord.Orchestration.Opportunity.Handle.{handle_opportunity}
use edgelord.Exchange.Event.{
  MarketEvent, connected, disconnected, book_snapshot, book_delta, market_settled,
}
use edgelord.Orchestration.Event.{
  Services, handle_each, handle_book, settle_market, handle_market_event,
}
use edgelord.System.Steps.{Flight, flight, Reach, later, reserved, settle}
use edgelord.System.Refinement.{Reach-handle_opportunity}

module _ {D : Type 0} where
  -- The flights once these tasks have been spawned, the last one in front.
  abbrev pub started : List (Task D) → List (Flight D) → List (Flight D)
  started [] fs = fs
  started (t ∷ ts) fs = started ts (flight t.opportunity reserved ∷ fs)

module _ {D : Type 0} ⦃d : Decimal D⦄ (limits : RiskLimits D) (x : Services D) where
  -- What an event leaves: some new tasks, each with a flight.
  abbrev pub Ran : List (Flight D) → List (Task D) → World D → Type 0
  Ran fs tasks v =
      (spawned : List (Task D)) × (v.tasks ≡ tasks ++ spawned)
      × Reach limits (record { state = v.state; flights = started spawned fs })

  Ran-handle_each :
      (os : List (Opportunity D)) (fs : List (Flight D)) (w : World D)
      → All (λ o. d.nought ≼ amount_of o) os
      → Reach limits (record { state = w.state; flights = fs })
      → Ran fs w.tasks (handle_each x os w)
  unfolding handle_each
  Ran-handle_each [] fs w h r = ([], sym (append-nil w.tasks), r)
  Ran-handle_each (o ∷ os) fs w (n, ns) r =
      elim (Reach-handle_opportunity limits x.config o fs w n r) [
        | inl (same, r') ↦
            let (spawned, tasks, r'') =
              Ran-handle_each os fs (handle_opportunity x.config o w) ns r' in
            (spawned, tasks ∙ ap (λ ts. ts ++ spawned) same, r'')
        | inr (task, its, more, r') ↦
            let (spawned, tasks, r'') =
              Ran-handle_each os (flight o reserved ∷ fs) (handle_opportunity x.config o w) ns r' in
            (
              task ∷ spawned,
              tasks ∙ ap (λ ts. ts ++ spawned) more ∙ append_assoc w.tasks (task ∷ []) spawned,
              subst
                  (λ p. Reach limits (record {
                    state = (handle_each x os (handle_opportunity x.config o w)).state;
                    flights = started spawned (flight p reserved ∷ fs);
                  }))
                  (sym its) r'',
            )
      ]

  Ran-handle_book :
      (t : TokenId) (book : Book D) (fs : List (Flight D)) (w : World D)
      → ((ctx : DetectionContext D) → All (λ o. d.nought ≼ amount_of o) (x.detect ctx))
      → Reach limits (record { state = w.state; flights = fs })
      → Ran fs w.tasks (handle_book x t book w)
  unfolding handle_book
  Ran-handle_book t book fs w h r = elim (Option-cases (get_by_token x.registry t)) [
    | inl e ↦ rw (e, handle_book) ([], sym (append-nil w.tasks), r)
    | inr (market, e) ↦
        let v : World D = record w { cache = update book w.cache } in
        rw (e, handle_book) (Ran-handle_each (x.detect (new market v.cache)) fs v (h _) r)
  ]

  -- When the strategies report no opportunity that costs less than nothing, every event is a run of
  -- the system, in which each spawned execution has started one flight and there are no other new
  -- flights.
  pub Reach-handle_market_event :
      (event : MarketEvent D) (fs : List (Flight D)) (w : World D)
      → ((ctx : DetectionContext D) → All (λ o. d.nought ≼ amount_of o) (x.detect ctx))
      → Reach limits (record { state = w.state; flights = fs })
      → Ran fs w.tasks (handle_market_event x event w)
  unfolding handle_market_event settle_market
  Reach-handle_market_event connected fs w h r = ([], sym (append-nil w.tasks), r)
  Reach-handle_market_event (disconnected reason) fs w h r = ([], sym (append-nil w.tasks), r)
  Reach-handle_market_event (book_snapshot t book) fs w h r = Ran-handle_book t book fs w h r
  Reach-handle_market_event (book_delta t book) fs w h r = Ran-handle_book t book fs w h r
  Reach-handle_market_event (market_settled m outcome payout) fs w h r = (
    [],
    sym (append-nil w.tasks),
    later r (settle x.show (λ p. calculate_arbitrage_pnl p payout) (settlement outcome) m),
  )
