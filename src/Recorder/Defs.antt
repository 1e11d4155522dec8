-- ===== src/Recorder/Defs.antt =====
-- The tables and the statements of the recorder. SQLite is known by what it documents: a primary key
-- has one row, an automatic key is a new one, a transaction that fails leaves nothing. Which statements
-- fail is an argument, and so is what other connections write between two statements that no
-- transaction holds together. A date is the number of its day, a moment a day with a time in it; what is stored
-- as JSON is kept as it is; the counters do not come near the bounds of their `i32`.
use edgelord.Common.{
  ℕ, Bool, true, false, not, ◌&&◌, ◌||◌, List, String, Option, none, some, ◌==◌, string_eq, nat_eq,
  Eq, lookup, insert, nat_beq, if◌then◌else◌, ◌≡◌, ◌↔◌, ==_iff, arith,
}
use edgelord.Orchestration.World.{TradeLeg}

abbrev pub Date : Type 0
Date = ℕ

pub record Moment : Type 0 where
  pub date : Date
  pub time : ℕ

-- The operations of `f32` that are used, with the conversions from and to a decimal.
pub record Single (D F : Type 0) : Type 0 where
  pub zero_f : F
  pub add_f : F → F → F
  pub abs_f : F → F
  pub lt_f : F → F → Bool
  pub decimal_to_f32 : D → F
  pub f32_to_decimal : F → D

pub record OpportunityRow (F : Type 0) : Type 0 where
  pub id : ℕ
  pub strategy : String
  pub market_ids : List String
  pub edge : F
  pub expected_profit : F
  pub detected_at : Moment
  pub executed : Bool
  pub rejected_reason : Option String

pub data TradeStatus : Type 0 where
  open_trade : TradeStatus
  closed_trade : TradeStatus

pub record TradeRow (D F : Type 0) : Type 0 where
  pub id : ℕ
  pub opportunity_id : ℕ
  pub strategy : String
  pub market_ids : List String
  pub legs : List (TradeLeg D)
  pub size : F
  pub expected_profit : F
  pub realized_profit : Option F
  pub status : TradeStatus
  pub opened_at : Moment
  pub closed_at : Option Moment
  pub close_reason : Option String

-- The columns beside the primary key.
pub record DailyStatsRow (F : Type 0) : Type 0 where
  pub opportunities_detected : ℕ
  pub opportunities_executed : ℕ
  pub opportunities_rejected : ℕ
  pub trades_opened : ℕ
  pub trades_closed : ℕ
  pub profit_realized : F
  pub loss_realized : F
  pub win_count : ℕ
  pub loss_count : ℕ
  pub total_volume : F
  pub peak_exposure : F
  pub latency_sum_ms : ℕ
  pub latency_count : ℕ

pub record StrategyDailyStatsRow (F : Type 0) : Type 0 where
  pub opportunities_detected : ℕ
  pub opportunities_executed : ℕ
  pub trades_opened : ℕ
  pub trades_closed : ℕ
  pub profit_realized : F
  pub win_count : ℕ
  pub loss_count : ℕ

-- The primary key of `strategy_daily_stats`.
abbrev pub Key : Type 0
Key = Date × String

abbrev same_key : Key → Key → Bool
same_key (d, s) (e, t) = nat_beq d e && s == t

pub same_key_iff : (j k : Key) → (same_key j k ≡ true) ↔ (j ≡ k)
same_key_iff (d, s) (e, t) = ground (arith, ==_iff s t)

instance abbrev pub key_eq : Eq Key
key_eq = record { same = same_key; same_iff = same_key_iff }

pub record Database (D F : Type 0) : Type 0 where
  pub opportunities : List (OpportunityRow F)
  pub trades : List (TradeRow D F)
  pub daily_stats : List (Date × DailyStatsRow F)
  pub strategy_daily_stats : List (Key × StrategyDailyStatsRow F)
  pub next_opportunity : ℕ
  pub next_trade : ℕ

pub data Statement : Type 0 where
  connection second_connection insert_row read_id load_daily load_strategy : Statement
  replace_daily replace_strategy load_trade update_trade : Statement
  delete_opportunities delete_trades : Statement

-- The places between two statements of a call where another connection may write.
pub data Gap : Type 0 where
  before_close before_counting between_reads before_replace between_replaces : Gap

-- What the other connections of the pool do there.
abbrev pub Others : (D F : Type 0) → Type 0
Others D F = Gap → Database D F → Database D F

-- No other connection writes.
abbrev pub alone : {D F : Type 0} → Others D F
alone gap db = db

-- The statements that fail in one call.
abbrev pub Faults : Type 0
Faults = Statement → Bool

module _ {D F : Type 0} (x : Single D F) where
  -- `Default`.
  abbrev pub no_stats : DailyStatsRow F
  no_stats = record {
    opportunities_detected = 0;
    opportunities_executed = 0;
    opportunities_rejected = 0;
    trades_opened = 0;
    trades_closed = 0;
    profit_realized = x.zero_f;
    loss_realized = x.zero_f;
    win_count = 0;
    loss_count = 0;
    total_volume = x.zero_f;
    peak_exposure = x.zero_f;
    latency_sum_ms = 0;
    latency_count = 0;
  }

  abbrev pub no_strategy_stats : StrategyDailyStatsRow F
  no_strategy_stats = record {
    opportunities_detected = 0;
    opportunities_executed = 0;
    trades_opened = 0;
    trades_closed = 0;
    profit_realized = x.zero_f;
    win_count = 0;
    loss_count = 0;
  }

-- `unwrap_or_else`.
abbrev pub row_or {ℓ} : {A : Type ℓ} → A → Option A → A
row_or a none = a
row_or a (some b) = b

abbrev pub Updater : Type 0 → Type 0
Updater F = DailyStatsRow F × StrategyDailyStatsRow F → DailyStatsRow F × StrategyDailyStatsRow F

module _ {D F : Type 0} (x : Single D F) (faults : Faults) where
  abbrev pub daily_of : Date → Database D F → DailyStatsRow F
  daily_of date db = row_or (no_stats x) (lookup date db.daily_stats)

  abbrev pub strategy_of : Date → String → Database D F → StrategyDailyStatsRow F
  strategy_of date strategy db =
      if strategy == ""
      then no_strategy_stats x
      else row_or (no_strategy_stats x) (lookup (date, strategy) db.strategy_daily_stats)

  -- The two `replace_into`; whether both were done.
  unfoldable pub replace_rows :
      Date
      → String
      → DailyStatsRow F × StrategyDailyStatsRow F
      → Others D F
      → Database D F
      → Bool × Database D F
  replace_rows date strategy (daily, strat) others db =
      let stored = record db { daily_stats = insert date daily db.daily_stats } in
      let seen = others between_replaces stored in
      if faults replace_daily
      then (false, db)
      else if strategy == ""
      then (true, stored)
      else if faults replace_strategy
      then (false, seen)
      else (
        true,
        record seen {
          strategy_daily_stats = insert (date, strategy) strat seen.strategy_daily_stats;
        },
      )

  -- The rows are read from the database as it is then, and replaced whole in what it has become.
  unfoldable pub update_daily_stats_with_conn :
      Date → String → Updater F → Others D F → Database D F → Bool × Database D F
  update_daily_stats_with_conn date strategy updater others db =
      let seen = others between_reads db in
      let rows : DailyStatsRow F × StrategyDailyStatsRow F =
        (daily_of date db, strategy_of date strategy seen) in
      if faults load_daily
      then (false, db)
      else if not (strategy == "") && faults load_strategy
      then (false, seen)
      else replace_rows date strategy (updater rows) others (others before_replace seen)

  -- `get` is the statement that takes the connection. Nothing protects the statements of the update
  -- from those of other connections.
  unfoldable pub update_daily_stats :
      (get : Statement) → Date → String → Updater F → Others D F → Database D F → Database D F
  update_daily_stats get date strategy updater others db =
      if faults get then db else (update_daily_stats_with_conn date strategy updater others db).1

  -- `transaction`, and the answer of the call: the row, its identifier, and the counters, or nothing.
  -- From its first statement, which inserts, no other connection writes.
  unfoldable pub transaction :
      ℕ → Date → String → Updater F → Database D F → Database D F → Option ℕ × Database D F
  transaction id date strategy updater db inserted =
      let (done, counted) = update_daily_stats_with_conn date strategy updater alone inserted in
      if faults insert_row || faults read_id || not done then (none, db) else (some id, counted)
