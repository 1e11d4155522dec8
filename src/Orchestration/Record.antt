-- ===== src/Orchestration/Record.antt =====
-- src/application/orchestration/position.rs: the positions that executions leave behind.
use edgelord.Common.{ℕ, List, map, Option, none, some, filter, contains, string_eq}
use edgelord.Money.{Decimal, ◌⊗◌, sum}
use edgelord.Domain.Id.{Time}
use edgelord.Domain.Opportunity.{Opportunity, OpportunityLeg, total_cost}
use edgelord.Domain.Position
use edgelord.Domain.Position.{
  Position, PositionLeg, PositionStatus, opened, partial_fill, with_trade_id,
}
use edgelord.Domain.Trade.{Fill, Failure}
use edgelord.Tracker
use edgelord.State.{AppState}

module _ {D : Type 0} ⦃d : Decimal D⦄ where
  abbrev pub position_leg : Opportunity D → OpportunityLeg D → PositionLeg D
  position_leg o leg = record {
    token_id = leg.token_id;
    size = o.volume;
    entry_price = leg.ask_price;
  }

  abbrev pub with_optional_trade : Position D → Option ℕ → Position D
  with_optional_trade p none = p
  with_optional_trade p (some t) = with_trade_id p t

  -- The position that `record_position` adds, under the identifier that it draws.
  abbrev pub full_position : Time → ℕ → Opportunity D → Option ℕ → Position D
  full_position now id o trade_id =
      with_optional_trade
        (Position.new id o.market_id (map (position_leg o) o.legs) (total_cost o ⊗ o.volume)
          (o.payout ⊗ o.volume) now opened)
        trade_id

  unfoldable pub record_position : Time → Opportunity D → Option ℕ → AppState D → AppState D
  unfolding Tracker.next_id Tracker.add
  record_position now o trade_id s =
      let (id, tracker) = Tracker.next_id s.positions in
      record s { positions = Tracker.add tracker (full_position now id o trade_id) }

  abbrev pub filled_legs : Opportunity D → List Fill → List (PositionLeg D)
  filled_legs o fills =
      map (position_leg o)
        (filter (λ leg. contains leg.token_id (map (λ f. f.token_id) fills)) o.legs)

  abbrev pub partial_position :
      Time → ℕ → Opportunity D → List Fill → List Failure → Option ℕ → Position D
  partial_position now id o fills failures trade_id =
      let legs = filled_legs o fills in
      with_optional_trade
        (Position.new id o.market_id legs (sum (map (λ l. l.entry_price ⊗ l.size) legs))
          (o.payout ⊗ o.volume) now
          (partial_fill (map (λ f. f.token_id) fills) (map (λ f. f.token_id) failures)))
        trade_id

  unfoldable pub record_partial_position :
      Time → Opportunity D → List Fill → List Failure → Option ℕ → AppState D → AppState D
  unfolding Tracker.next_id Tracker.add
  record_partial_position now o fills failures trade_id s =
      let (id, tracker) = Tracker.next_id s.positions in
      record s {
        positions = Tracker.add tracker (partial_position now id o fills failures trade_id);
      }
