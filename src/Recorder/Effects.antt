-- ===== src/Recorder/Effects.antt =====
-- What one call of the recorder does.
use edgelord.Common.{
  suc, ◌≡◌, Bool, not, ◌&&◌, ◌||◌, [], ◌∷◌, ◌++◌, String, none, some, ◌==◌, string_eq, insert,
  nat_eq, if◌then◌else◌, arith,
}
use edgelord.Orchestration.World.{RecordedOpportunity, TradeOpenEvent}
use edgelord.Recorder.Defs.{
  Date, Moment, Single, Database, Faults, connection, insert_row, read_id, load_daily,
  load_strategy, replace_daily, replace_strategy, Updater, transaction, replace_rows,
  update_daily_stats_with_conn, daily_of, strategy_of, key_eq,
}
use edgelord.Recorder.Rows.{
  record_opportunity, record_trade_open, opportunity_row, trade_row, detect_updater, open_updater,
}

-- Whether every statement of a recording succeeds.
abbrev pub commits : Faults → String → Bool
commits faults strategy = not (
    faults connection
    || faults insert_row
    || faults read_id
    || faults load_daily
    || faults replace_daily
    || (not (strategy == "") && (faults load_strategy || faults replace_strategy)))

module _ {D F : Type 0} (x : Single D F) where
  -- The counters of the day and, for a strategy with a name, of the strategy on that day.
  abbrev pub counted : Faults → Date → String → Updater F → Database D F → Database D F
  counted faults date strategy updater db =
      let rows = updater (daily_of x faults date db, strategy_of x faults date strategy db) in
      record db {
        daily_stats = insert date rows.0 db.daily_stats;
        strategy_daily_stats =
            if strategy == ""
            then db.strategy_daily_stats
            else insert (date, strategy) rows.1 db.strategy_daily_stats;
      }

  -- A recorded opportunity is stored whole, under a new identifier and counted once, or not at all.
  pub record_opportunity_effect :
      (faults : Faults) (now : Moment) (event : RecordedOpportunity D) (db : Database D F)
      → record_opportunity x faults now event db ≡ (
          if commits faults event.strategy
          then (
            some db.next_opportunity,
            record (counted faults now.date event.strategy (detect_updater event) db) {
              opportunities =
                  db.opportunities ++ (opportunity_row x now db.next_opportunity event ∷ []);
              next_opportunity = suc db.next_opportunity;
            },
          )
          else (none, db))
  unfolding record_opportunity transaction update_daily_stats_with_conn replace_rows
  record_opportunity_effect faults now event db = ground arith

  -- The same for a trade that is opened.
  pub record_trade_open_run :
      (faults : Faults) (now : Moment) (event : TradeOpenEvent D) (db : Database D F)
      → record_trade_open x faults now event db ≡ (
          if commits faults event.strategy
          then (
            some db.next_trade,
            record (counted faults now.date event.strategy (open_updater x event) db) {
              trades = db.trades ++ (trade_row x now db.next_trade event ∷ []);
              next_trade = suc db.next_trade;
            },
          )
          else (none, db))
  unfolding record_trade_open transaction update_daily_stats_with_conn replace_rows
  record_trade_open_run faults now event db = ground arith
