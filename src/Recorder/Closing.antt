-- ===== src/Recorder/Closing.antt =====
-- `record_trade_close` (src/adapter/outbound/sqlite/recorder.rs), and the wins and losses.
use edgelord.Common.{ℕ, suc, ◌+◌, ◌≡◌, refl, Bool, false, string_eq, nat_eq, nat_beq, arith}
use edgelord.Money.{Decimal, ◌<?◌}
use edgelord.Settlement.{TradeCloseEvent}
use edgelord.Recorder.Defs.{
  Date, Moment, Single, Database, DailyStatsRow, StrategyDailyStatsRow, Faults, alone, no_stats,
  daily_of, strategy_of, update_daily_stats, update_daily_stats_with_conn, replace_rows, key_eq,
}
use edgelord.Recorder.Rows.{record_trade_close, close_updater, strategy_of_trade}
use edgelord.Recorder.Totals.{total, total-insert}

abbrev pub outcomes : {F : Type 0} → DailyStatsRow F → ℕ
outcomes row = row.win_count + row.loss_count

abbrev pub closed : {F : Type 0} → DailyStatsRow F → ℕ
closed row = row.trades_closed

module _ {D F : Type 0} ⦃d : Decimal D⦄ (x : Single D F) (p : Date → Bool) where
  abbrev Agrees : Database D F → Type 0
  Agrees db = total p outcomes db.daily_stats ≡ total p closed db.daily_stats

-- No statement fails.
abbrev pub quiet : Faults
quiet s = false

module _ {D F : Type 0} ⦃d : Decimal D⦄ (x : Single D F) where
  -- Where no statement fails and no other connection writes meanwhile, each close of a trade is counted on its day: of a trade that was closed
  -- before or is not there too.
  pub record_trade_close_counted :
      (now : Moment) (event : TradeCloseEvent D) (db : Database D F)
      → total
          (λ date. nat_beq date now.date)
          closed
          (record_trade_close x quiet now event alone db).daily_stats
        ≡ suc (total (λ date. nat_beq date now.date) closed db.daily_stats)
  unfolding record_trade_close update_daily_stats update_daily_stats_with_conn replace_rows
  record_trade_close_counted now event db =
      let strategy = strategy_of_trade x quiet event.trade_id db in
      let rows : DailyStatsRow F × StrategyDailyStatsRow F =
        (daily_of x quiet now.date db, strategy_of x quiet now.date strategy db) in
      ground (
        arith,
        total-insert (λ date. nat_beq date now.date) closed (no_stats x) now.date
            (close_updater x (d.nought <? event.realized_profit)
              (x.decimal_to_f32 event.realized_profit) rows).0
            db.daily_stats refl,
      )
