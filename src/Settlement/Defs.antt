-- ===== src/Settlement/Defs.antt =====
-- `PositionManager`. The calls of the statistics recorder are returned as a list, first call first;
-- the printing of a decimal is the crate's and a parameter.
use Prim.Native.String.{◌++◌ as str_append}
use edgelord.Common.{
  ℕ, Bool, not, ◌&&◌, List, [], ◌∷◌, ◌++◌, map, String, Option, none, some, if◌then◌else◌, ◌==◌,
  string_eq, filter,
}
use edgelord.Money.{Decimal, ◌⊕◌, ◌⊖◌, ◌⊗◌}
use edgelord.Domain.Id.{PositionId, MarketId}
use edgelord.Domain.Position.{Position, status_is_closed}
use edgelord.Tracker.{Tracker, get, close}

pub data CloseReason (D : Type 0) : Type 0 where
  settlement : (winning_outcome : String) → CloseReason D
  manual_exit : CloseReason D
  stop_loss : (trigger_price : D) → CloseReason D
  take_profit : (trigger_price : D) → CloseReason D
  expired : CloseReason D
  system_exit : (reason : String) → CloseReason D

-- `Display` for `CloseReason`.
unfoldable pub reason_text : {D : Type 0} → (D → String) → CloseReason D → String
reason_text show (settlement w) = str_append "settlement:" w
reason_text show manual_exit = "manual_exit"
reason_text show (stop_loss p) = str_append "stop_loss:" (show p)
reason_text show (take_profit p) = str_append "take_profit:" (show p)
reason_text show expired = "expired"
reason_text show (system_exit r) = str_append "system_exit:" r

pub record CloseResult (D : Type 0) : Type 0 where
  pub position_id : PositionId
  pub realized_pnl : D
  pub reason : CloseReason D

pub record TradeCloseEvent (D : Type 0) : Type 0 where
  pub trade_id : ℕ
  pub realized_profit : D
  pub reason : String

-- What the loop of `close_all_for_market` carries: the tracker, the recorded events, `total_pnl`.
pub record Progress (D : Type 0) : Type 0 where
  pub tracker : Tracker D
  pub events : List (TradeCloseEvent D)
  pub total_pnl : D

module _ {D : Type 0} where
  -- The filter of `close_all_for_market`.
  abbrev pub is_target : MarketId → Position D → Bool
  is_target m p = p.market_id == m && not (status_is_closed p.status)

  -- `position_info`.
  unfoldable pub targets : MarketId → List (Position D) → List (PositionId × Option ℕ)
  targets m ps = map (λ p. (p.id, p.trade_id)) (filter (is_target m) ps)

module _ {D : Type 0} (show : D → String) where
  abbrev pub recorded : Option ℕ → D → CloseReason D → List (TradeCloseEvent D)
  recorded none pnl reason = []
  recorded (some t) pnl reason =
      record { trade_id = t; realized_profit = pnl; reason = reason_text show reason } ∷ []

  -- The outcome of `tracker.close(..)?` and what follows it.
  abbrev closed_with :
      PositionId
      → CloseReason D
      → Option ℕ
      → Tracker D × Option D
      → Tracker D × List (TradeCloseEvent D) × Option (CloseResult D)
  closed_with id reason trade_id (t, none) = (t, [], none)
  closed_with id reason trade_id (t, some pnl) = (
    t,
    recorded trade_id pnl reason,
    some (record { position_id = id; realized_pnl = pnl; reason = reason }),
  )

  unfoldable pub close_position :
      Tracker D
      → PositionId
      → D
      → CloseReason D
      → Option ℕ
      → Tracker D × List (TradeCloseEvent D) × Option (CloseResult D)
  close_position t id pnl reason trade_id = elim (get id t.positions) [
    | none ↦ (t, [], none)
    | some p ↦
        if status_is_closed p.status
        then (t, [], none)
        else closed_with id reason trade_id (close t id pnl)
  ]

module _ {D : Type 0} ⦃d : Decimal D⦄ where
  abbrev credit : Option (CloseResult D) → D → D
  credit none total = total
  credit (some r) total = total ⊕ r.realized_pnl

  unfoldable pub calculate_arbitrage_pnl : Position D → D → D
  calculate_arbitrage_pnl p payout_per_share =
      (payout_per_share ⊗ p.guaranteed_payout) ⊖ p.entry_cost

module _ {D : Type 0} ⦃d : Decimal D⦄ (show : D → String) (pnl_of : Position D → D)
    (reason : CloseReason D) where
  unfoldable pub close_one : PositionId × Option ℕ → Progress D → Progress D
  close_one (id, trade_id) w = elim (get id w.tracker.positions) [
    | none ↦ w
    | some p ↦
        let (t, events, result) = close_position show w.tracker id (pnl_of p) reason trade_id in
        record { tracker = t; events = w.events ++ events; total_pnl = credit result w.total_pnl }
  ]

  unfoldable pub close_each : List (PositionId × Option ℕ) → Progress D → Progress D
  close_each [] w = w
  close_each (i ∷ is) w = close_each is (close_one i w)

  unfoldable pub close_all_for_market : Tracker D → MarketId → Progress D
  close_all_for_market t m =
      close_each (targets m t.positions) (record { tracker = t; events = []; total_pnl = d.nought })
