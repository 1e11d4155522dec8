-- ===== src/Recorder/Journal.antt =====
-- Any calls of the recorder (src/adapter/outbound/sqlite/recorder.rs).
use edgelord.Common.{ℕ, List, [], ◌∷◌, string_eq, nat_eq}
use edgelord.Money.{Decimal}
use edgelord.Settlement.{TradeCloseEvent}
use edgelord.Orchestration.World.{RecordedOpportunity, TradeOpenEvent}
use edgelord.Recorder.Defs.{Moment, Single, Database, Faults, Others, alone}
use edgelord.Recorder.Rows.{
  record_opportunity, record_trade_open, record_trade_close, record_latency, update_peak_exposure,
  prune_old_records,
}

-- A call, with the statements that fail in it and its moment.
pub data Call (D : Type 0) : Type 0 where
  opportunity : (faults : Faults) (now : Moment) (event : RecordedOpportunity D) → Call D
  trade_open : (faults : Faults) (now : Moment) (event : TradeOpenEvent D) → Call D
  trade_close : (faults : Faults) (now : Moment) (event : TradeCloseEvent D) → Call D
  latency : (faults : Faults) (now : Moment) (latency_ms : ℕ) → Call D
  peak_exposure : (faults : Faults) (now : Moment) (exposure : D) → Call D
  prune : (faults : Faults) (today retention_days : ℕ) → Call D

abbrev pub empty : {D F : Type 0} → Database D F
empty = record {
  opportunities = [];
  trades = [];
  daily_stats = [];
  strategy_daily_stats = [];
  next_opportunity = 1;
  next_trade = 1;
}

module _ {D F : Type 0} ⦃d : Decimal D⦄ (x : Single D F) where
  unfoldable pub run_call_among : Others D F → Call D → Database D F → Database D F
  run_call_among others (opportunity faults now event) db =
      (record_opportunity x faults now event db).1
  run_call_among others (trade_open faults now event) db =
      (record_trade_open x faults now event db).1
  run_call_among others (trade_close faults now event) db =
      record_trade_close x faults now event others db
  run_call_among others (latency faults now ms) db = record_latency x faults now ms others db
  run_call_among others (peak_exposure faults now e) db =
      update_peak_exposure x faults now e others db
  run_call_among others (prune faults today days) db = prune_old_records faults today days db

  -- Calls, each with what the other connections write between its statements.
  unfoldable pub run_calls_among : List (Others D F × Call D) → Database D F → Database D F
  run_calls_among [] db = db
  run_calls_among ((others, c) ∷ cs) db = run_calls_among cs (run_call_among others c db)

  -- Calls one after the other.
  abbrev pub run_call : Call D → Database D F → Database D F
  run_call = run_call_among alone

  unfoldable pub run_calls : List (Call D) → Database D F → Database D F
  run_calls [] db = db
  run_calls (c ∷ cs) db = run_calls cs (run_call c db)
