-- ===== src/Domain/Position.antt =====
-- src/domain/position.rs: positions and their status.
use edgelord.Common.{
  ℕ, Bool, true, false, List, Option, none, some, Result, ok, err, is_empty, if◌then◌else◌,
}
use edgelord.Money.{Decimal, ◌⊖◌, ◌⊗◌, ◌<?◌}
use edgelord.Domain.Id.{TokenId, MarketId, PositionId, Time}
use edgelord.Domain.Error.{DomainError, empty_legs, payout_not_greater_than_cost}

pub data PositionStatus (D : Type 0) : Type 0 where
  opened : PositionStatus D  -- `Open`
  partial_fill : (filled missing : List TokenId) → PositionStatus D
  closed : (pnl : D) → PositionStatus D

module _ {D : Type 0} where
  abbrev pub status_is_open : PositionStatus D → Bool
  status_is_open opened = true
  status_is_open (partial_fill f m) = false
  status_is_open (closed p) = false

  abbrev pub status_is_partial : PositionStatus D → Bool
  status_is_partial opened = false
  status_is_partial (partial_fill f m) = true
  status_is_partial (closed p) = false

  abbrev pub status_is_closed : PositionStatus D → Bool
  status_is_closed opened = false
  status_is_closed (partial_fill f m) = false
  status_is_closed (closed p) = true

pub record PositionLeg (D : Type 0) : Type 0 where
  pub token_id : TokenId
  pub size : D
  pub entry_price : D

pub record Position (D : Type 0) : Type 0 where
  pub id : PositionId
  pub market_id : MarketId
  pub legs : List (PositionLeg D)
  pub entry_cost : D
  pub guaranteed_payout : D
  pub opened_at : Time
  pub status : PositionStatus D
  pub trade_id : Option ℕ

module _ {D : Type 0} where
  abbrev pub new :
      PositionId → MarketId → List (PositionLeg D) → D → D → Time → PositionStatus D → Position D
  new id market_id legs entry_cost guaranteed_payout opened_at status = record {
    id = id;
    market_id = market_id;
    legs = legs;
    entry_cost = entry_cost;
    guaranteed_payout = guaranteed_payout;
    opened_at = opened_at;
    status = status;
    trade_id = none;
  }

  abbrev pub with_trade_id : Position D → ℕ → Position D
  with_trade_id p t = record p { trade_id = some t }

  abbrev pub is_open : Position D → Bool
  is_open p = status_is_open p.status

  abbrev pub close : Position D → D → Position D
  close p pnl = record p { status = closed pnl }

module _ {D : Type 0} ⦃d : Decimal D⦄ where
  abbrev pub cost : PositionLeg D → D
  cost l = l.size ⊗ l.entry_price

  abbrev pub expected_profit : Position D → D
  expected_profit p = p.guaranteed_payout ⊖ p.entry_cost

  unfoldable pub try_new :
      PositionId
      → MarketId
      → List (PositionLeg D)
      → D
      → D
      → Time
      → PositionStatus D
      → Result (Position D) (DomainError D)
  try_new id market_id legs entry_cost guaranteed_payout opened_at status =
      if is_empty legs
      then err empty_legs
      else if entry_cost <? guaranteed_payout
      then ok (new id market_id legs entry_cost guaranteed_payout opened_at status)
      else err (payout_not_greater_than_cost guaranteed_payout entry_cost)
