-- ===== src/Recorder/Rows.antt =====
-- The operations of `SqliteRecorder`, each with the moment that it reads from the clock.
use edgelord.Common.{
  ℕ, suc, ◌+◌, ◌-◌, Bool, true, false, not, ◌&&◌, List, [], ◌∷◌, ◌++◌, String, Option, none, some,
  filter, leb, nat_beq, nat_eq, if◌then◌else◌, map,
}
use edgelord.Money.{Decimal, ◌<?◌}
use edgelord.Settlement.{TradeCloseEvent}
use edgelord.Orchestration.World.{RecordedOpportunity, TradeOpenEvent}
use edgelord.Recorder.Defs.{
  Moment, Single, OpportunityRow, TradeRow, Database, Faults, connection, second_connection,
  delete_opportunities, delete_trades, load_trade, update_trade, open_trade, closed_trade, Updater,
  Others, before_close, before_counting, transaction, update_daily_stats,
}

abbrev is_some : Option String → Bool
is_some none = false
is_some (some s) = true

abbrev when : Bool → ℕ → ℕ
when b n = if b then suc n else n

module _ {D F : Type 0} where
  abbrev pub detect_updater : RecordedOpportunity D → Updater F
  detect_updater event (daily, strat) = (
    record daily {
      opportunities_detected = suc daily.opportunities_detected;
      opportunities_executed = when event.executed daily.opportunities_executed;
      opportunities_rejected =
          when (not event.executed && is_some event.rejected_reason) daily.opportunities_rejected;
    },
    record strat {
      opportunities_detected = suc strat.opportunities_detected;
      opportunities_executed = when event.executed strat.opportunities_executed;
    },
  )

module _ {D F : Type 0} (x : Single D F) where
  abbrev pub open_updater : TradeOpenEvent D → Updater F
  open_updater event (daily, strat) = (
    record daily {
      trades_opened = suc daily.trades_opened;
      total_volume = x.add_f daily.total_volume (x.decimal_to_f32 event.size);
    },
    record strat { trades_opened = suc strat.trades_opened },
  )

  abbrev pub close_updater : (is_win : Bool) → (profit : F) → Updater F
  close_updater is_win profit (daily, strat) =
      if is_win
      then (
        record daily {
          trades_closed = suc daily.trades_closed;
          profit_realized = x.add_f daily.profit_realized profit;
          win_count = suc daily.win_count;
        },
        record strat {
          trades_closed = suc strat.trades_closed;
          profit_realized = x.add_f strat.profit_realized profit;
          win_count = suc strat.win_count;
        },
      )
      else (
        record daily {
          trades_closed = suc daily.trades_closed;
          loss_realized = x.add_f daily.loss_realized (x.abs_f profit);
          loss_count = suc daily.loss_count;
        },
        record strat { trades_closed = suc strat.trades_closed; loss_count = suc strat.loss_count },
      )

  abbrev pub opportunity_row : Moment → ℕ → RecordedOpportunity D → OpportunityRow F
  opportunity_row now id event = record {
    id = id;
    strategy = event.strategy;
    market_ids = event.market_ids;
    edge = x.decimal_to_f32 event.edge;
    expected_profit = x.decimal_to_f32 event.expected_profit;
    detected_at = now;
    executed = event.executed;
    rejected_reason = event.rejected_reason;
  }

  abbrev pub trade_row : Moment → ℕ → TradeOpenEvent D → TradeRow D F
  trade_row now id event = record {
    id = id;
    opportunity_id = event.opportunity_id;
    strategy = event.strategy;
    market_ids = event.market_ids;
    legs = event.legs;
    size = x.decimal_to_f32 event.size;
    expected_profit = x.decimal_to_f32 event.expected_profit;
    realized_profit = none;
    status = open_trade;
    opened_at = now;
    closed_at = none;
    close_reason = none;
  }

  unfoldable pub record_opportunity :
      Faults → Moment → RecordedOpportunity D → Database D F → Option ℕ × Database D F
  record_opportunity faults now event db =
      let id = db.next_opportunity in
      if faults connection
      then (none, db)
      else transaction x faults id now.date event.strategy (detect_updater event) db (record db {
        opportunities = db.opportunities ++ (opportunity_row now id event ∷ []);
        next_opportunity = suc id;
      })

  unfoldable pub record_trade_open :
      Faults → Moment → TradeOpenEvent D → Database D F → Option ℕ × Database D F
  record_trade_open faults now event db =
      let id = db.next_trade in
      if faults connection
      then (none, db)
      else transaction x faults id now.date event.strategy (open_updater event) db
          (record db { trades = db.trades ++ (trade_row now id event ∷ []); next_trade = suc id })

  -- The row with this identifier.
  unfoldable pub find_trade : ℕ → List (TradeRow D F) → Option (TradeRow D F)
  find_trade id [] = none
  find_trade id (t ∷ ts) = if nat_beq t.id id then some t else find_trade id ts

  abbrev pub closed_row : Moment → TradeCloseEvent D → TradeRow D F → TradeRow D F
  closed_row now event t =
      if nat_beq t.id event.trade_id
      then record t {
        realized_profit = some (x.decimal_to_f32 event.realized_profit);
        status = closed_trade;
        closed_at = some now;
        close_reason = some event.reason;
      }
      else t

  abbrev pub strategy_name : Option (TradeRow D F) → String
  strategy_name none = ""
  strategy_name (some t) = t.strategy

  -- The query for the trade, whose failure counts as no trade.
  abbrev pub strategy_of_trade : Faults → ℕ → Database D F → String
  strategy_of_trade faults id db =
      if faults load_trade then "" else strategy_name (find_trade id db.trades)

  abbrev pub latency_updater : (latency_ms : ℕ) → Updater F
  latency_updater latency_ms (daily, strat) = (
    record daily {
      latency_sum_ms = daily.latency_sum_ms + latency_ms;
      latency_count = suc daily.latency_count;
    },
    strat,
  )

  abbrev pub peak_updater : F → Updater F
  peak_updater e (daily, strat) = (
    record daily {
      peak_exposure = if x.lt_f daily.peak_exposure e then e else daily.peak_exposure;
    },
    strat,
  )

  unfoldable pub record_latency : Faults → Moment → ℕ → Others D F → Database D F → Database D F
  record_latency faults now latency_ms =
      update_daily_stats x faults connection now.date "" (latency_updater latency_ms)

  unfoldable pub update_peak_exposure :
      Faults → Moment → D → Others D F → Database D F → Database D F
  update_peak_exposure faults now exposure =
      update_daily_stats x faults connection now.date "" (peak_updater (x.decimal_to_f32 exposure))

module _ {D F : Type 0} ⦃d : Decimal D⦄ (x : Single D F) where
  unfoldable pub record_trade_close :
      Faults → Moment → TradeCloseEvent D → Others D F → Database D F → Database D F
  record_trade_close faults now event others db =
      let strategy = strategy_of_trade x faults event.trade_id db in
      if faults connection
      then db
      else let seen = others before_close db in
        if faults update_trade
        then seen
        else update_daily_stats x faults second_connection now.date strategy
            (close_updater x (d.nought <? event.realized_profit)
              (x.decimal_to_f32 event.realized_profit))
            others
            (others before_counting
              (record seen { trades = map (closed_row x now event) seen.trades }))

-- The text of a moment is before that of a date exactly when its day is.
unfoldable pub prune_old_records :
    {D F : Type 0} → Faults → (today retention_days : ℕ) → Database D F → Database D F
prune_old_records faults today retention_days db =
    if faults connection
    then db
    else let cutoff = today - retention_days in
      record db {
        opportunities =
            if faults delete_opportunities
            then db.opportunities
            else filter (λ r. leb cutoff r.detected_at.date) db.opportunities;
        trades =
            if faults delete_trades
            then db.trades
            else filter (λ t. leb cutoff t.opened_at.date) db.trades;
      }
