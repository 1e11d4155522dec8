-- ===== src/Recorder/Opening.antt =====
-- `record_trade_open` (src/adapter/outbound/sqlite/recorder.rs): all of it, or nothing.
use edgelord.Common.{
  ℕ, suc, ◌≡◌, refl, ap, true, false, ◌&&◌, not, List, [], ◌∷◌, ◌++◌, none, some, String, ◌==◌,
  string_eq, nat_eq, lookup, insert, lookup-insert, if◌then◌else◌, arith, Bool-cases, inl, inr, ◌⊎◌,
  Eq, sym, subst, ◌∙◌, ==_iff,
}
use edgelord.Orchestration.World.{TradeOpenEvent}
use edgelord.Recorder.Defs.{
  Date, Moment, Key, key_eq, Single, Database, DailyStatsRow, StrategyDailyStatsRow, Faults,
  Updater, no_stats, no_strategy_stats, row_or, open_trade, daily_of, strategy_of,
}
use edgelord.Recorder.Rows.{record_trade_open, open_updater, trade_row}
use edgelord.Recorder.Effects.{commits, counted, record_trade_open_run}

-- A count in a table, which is zero where the key has no row.
abbrev pub count_in : {K V : Type 0} ⦃keys : Eq K⦄ → (V → ℕ) → K → List (K × V) → ℕ
count_in column key rows = elim (lookup key rows) [ none ↦ 0 | some row ↦ column row ]

pub count_in-insert :
    {K V : Type 0} ⦃keys : Eq K⦄ (column : V → ℕ) (new at : K) (row : V) (rows : List (K × V))
    → count_in column at (insert new row rows)
      ≡ (if new == at then column row else count_in column at rows)
count_in-insert column new at row rows = ground (arith, lookup-insert new at row rows)

pub count_in-row_or :
    {K V : Type 0} ⦃keys : Eq K⦄ (column : V → ℕ) (at : K) (default : V) (rows : List (K × V))
    → column default ≡ 0
    → column (row_or default (lookup at rows)) ≡ count_in column at rows
count_in-row_or column at default rows h = ground (arith, h)

-- A counter of a day, and the trades that a strategy opened on a day.
abbrev pub count_on : {D F : Type 0} → (DailyStatsRow F → ℕ) → Date → Database D F → ℕ
count_on column date db = count_in column date db.daily_stats

abbrev pub opened_by : {D F : Type 0} → Key → Database D F → ℕ
opened_by key db = count_in (λ row. row.trades_opened) key db.strategy_daily_stats

-- The trade is stored, and counted once on its day and, where it names a strategy, once for this.
pub record Stored {D F : Type 0} (x : Single D F) (now : Moment) (event : TradeOpenEvent D)
    (db after : Database D F) : Type 0 where
  trades :
      after.trades
      ≡ db.trades
        ++ (record {
          id = db.next_trade;
          opportunity_id = event.opportunity_id;
          strategy = event.strategy;
          market_ids = event.market_ids;
          legs = event.legs;
          size = x.decimal_to_f32 event.size;
          expected_profit = x.decimal_to_f32 event.expected_profit;
          realized_profit = none;
          status = open_trade;
          opened_at = now;
          closed_at = none;
          close_reason = none;
        }
            ∷ [])
  next_trade : after.next_trade ≡ suc db.next_trade
  opportunities : after.opportunities ≡ db.opportunities
  opened :
      (date : Date)
      → count_on (λ row. row.trades_opened) date after ≡ (
          if now.date == date
          then suc (count_on (λ row. row.trades_opened) date db)
          else count_on (λ row. row.trades_opened) date db)
  closed :
      (date : Date)
      → count_on (λ row. row.trades_closed) date after ≡ count_on (λ row. row.trades_closed) date db
  detected :
      (date : Date)
      → count_on (λ row. row.opportunities_detected) date after
        ≡ count_on (λ row. row.opportunities_detected) date db
  by_strategy :
      (key : Key)
      → opened_by key after ≡ (
          if not (event.strategy == "") && (now.date, event.strategy) == key
          then suc (opened_by key db)
          else opened_by key db)

module _ {D F : Type 0} (x : Single D F) where
  -- The counter of a day when its row was written back.
  count_on-counted :
      (column : DailyStatsRow F → ℕ) (by : ℕ → ℕ) (faults : Faults) (at : Date) (strategy : String)
      (updater : Updater F) (db : Database D F) (date : Date)
      → column (no_stats x) ≡ 0
      → ((rows : DailyStatsRow F × StrategyDailyStatsRow F)
          → column (updater rows).0 ≡ by (column rows.0))
      → count_on column date (counted x faults at strategy updater db)
        ≡ (if at == date then by (count_on column date db) else count_on column date db)
  count_on-counted column by faults at strategy updater db date zero moved =
      let rows : DailyStatsRow F × StrategyDailyStatsRow F =
        (daily_of x faults at db, strategy_of x faults at strategy db) in
      let written = count_in-insert column at date (updater rows).0 db.daily_stats in
      let read = count_in-row_or column at (no_stats x) db.daily_stats zero in
      elim (Bool-cases (at == date)) [
        | inl e ↦
            let same : at ≡ date = (==_iff at date).0 e in
            written ∙ rw e (moved rows ∙ ap by (read ∙ ap (λ k. count_on column k db) same))
        | inr e ↦ written ∙ rw e refl
      ]

  opened_by-counted :
      (faults : Faults) (now : Moment) (event : TradeOpenEvent D) (db : Database D F) (key : Key)
      → opened_by key (counted x faults now.date event.strategy (open_updater x event) db) ≡ (
          if not (event.strategy == "") && (now.date, event.strategy) == key
          then suc (opened_by key db)
          else opened_by key db)
  opened_by-counted faults now event db key =
      let rows =
        open_updater x event
          (daily_of x faults now.date db, strategy_of x faults now.date event.strategy db) in
      let k : Key = (now.date, event.strategy) in
      elim (Bool-cases (k == key)) [
        | inl e ↦
            let same : k ≡ key = (==_iff k key).0 e in
            ground (
              arith,
              e,
              same,
              count_in-insert (λ row. row.trades_opened) k key rows.1 db.strategy_daily_stats,
              count_in-row_or (λ row. row.trades_opened) k (no_strategy_stats x)
                  db.strategy_daily_stats refl,
            )
        | inr e ↦ ground (
          arith,
          e,
          count_in-insert (λ row. row.trades_opened) k key rows.1 db.strategy_daily_stats,
        )
      ]

  Stored-record_trade_open :
      (faults : Faults) (now : Moment) (event : TradeOpenEvent D) (db : Database D F)
      → commits faults event.strategy ≡ true
      → ((record_trade_open x faults now event db).0 ≡ some db.next_trade)
        × Stored x now event db (record_trade_open x faults now event db).1
  Stored-record_trade_open faults now event db h =
      let after : Database D F =
        record (counted x faults now.date event.strategy (open_updater x event) db) {
          trades = db.trades ++ (trade_row x now db.next_trade event ∷ []);
          next_trade = suc db.next_trade;
        } in
      let run : record_trade_open x faults now event db ≡ (some db.next_trade, after) =
        record_trade_open_run x faults now event db ∙ rw h refl in
      let day = λ (column : DailyStatsRow F → ℕ) (by : ℕ → ℕ) (date : Date).
        count_on-counted column by faults now.date event.strategy (open_updater x event) db date in
      let stored : Stored x now event db after = record {
        trades = refl;
        next_trade = refl;
        opportunities = refl;
        opened = λ date. day (λ row. row.trades_opened) suc date refl (λ rows. refl);
        closed =
            λ date. day (λ row. row.trades_closed) (λ n. n) date refl (λ rows. refl) ∙ ground arith;
        detected = λ date.
            day (λ row. row.opportunities_detected) (λ n. n) date refl (λ rows. refl)
            ∙ ground arith;
        by_strategy = opened_by-counted faults now event db;
      } in
      (ap (λ r. r.0) run, subst (λ r. Stored x now event db r.1) (sym run) stored)

  -- A call of `record_trade_open` in which no statement fails answers the new identifier and stores
  -- the trade whole, open and not closed, behind the others, counts it once on its day and, where it
  -- names a strategy, once for this strategy on that day, and changes the counts of opened trades, of
  -- closed trades and of detected opportunities nowhere else; one in which a statement fails answers
  -- nothing and changes nothing.
  pub record_trade_open_effect :
      (faults : Faults) (now : Moment) (event : TradeOpenEvent D) (db : Database D F)
      → let (answer, after) = record_trade_open x faults now event db in
        ((commits faults event.strategy ≡ true)
          × (answer ≡ some db.next_trade)
          × Stored x now event db after)
        ⊎ ((commits faults event.strategy ≡ false) × (answer ≡ none) × (after ≡ db))
  record_trade_open_effect faults now event db = elim (Bool-cases (commits faults event.strategy)) [
    | inl e ↦
        let (answer, stored) = Stored-record_trade_open faults now event db e in
        inl (e, answer, stored)
    | inr e ↦
        let run = record_trade_open_run x faults now event db in
        inr (e, ground (arith, e, run), ground (arith, e, run))
  ]
