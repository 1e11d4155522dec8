-- ===== src/Examples/Recorder.antt =====
-- A day of the recorder: an opportunity, its trade, a close, and a close of the same trade again.
use edgelord.Common.{
  false, some, string_eq, lookup, insert, ℕ, suc, ◌≡◌, refl, true, [], ◌∷◌, none, List, ltb, ◌+◌,
  nat_beq, ◌⊎◌,
}
use edgelord.Common.Int.{ℤ, pos, pos_part}
use edgelord.Money.Cents.{cents}
use edgelord.Orchestration.World.{RecordedOpportunity, TradeOpenEvent}
use edgelord.Settlement.{TradeCloseEvent}
use edgelord.Recorder.Defs.{
  Faults, replace_strategy, transaction, update_daily_stats_with_conn, replace_rows, Moment, Single,
  Database, Others, alone,
}
use edgelord.Recorder.Effects.{commits}
use edgelord.Recorder.Rows.{record_trade_open, record_trade_close, record_latency}
use edgelord.Recorder.Query.{get_summary}
use edgelord.Recorder.Totals.{total}
use edgelord.Recorder.Journal.{
  Call, opportunity, trade_open, trade_close, latency, run_calls, run_calls_among, empty,
}
use edgelord.Recorder.Agreement.{KeepAgreement, RowsAgree-record_trade_close}
use edgelord.Recorder.Summary.{get_summary-outcomes}
use edgelord.Recorder.Opening.{Stored, count_on, record_trade_open_effect}
use edgelord.Recorder.Lost.{record_latency-lost}
use edgelord.Recorder.Closing.{closed, quiet, record_trade_close_counted}

abbrev f32 : Single ℤ ℕ
f32 = record {
  zero_f = 0;
  add_f = λ a b. a + b;
  abs_f = λ a. a;
  lt_f = λ a b. ltb a b;
  decimal_to_f32 = pos_part;
  f32_to_decimal = λ a. pos a;
}

abbrev noon : Moment
noon = record { date = 100; time = 43200 }

abbrev detected : RecordedOpportunity ℤ
detected = record {
  strategy = "single_condition";
  market_ids = "rain" ∷ [];
  edge = pos 10;
  expected_profit = pos 1000;
  executed = true;
  rejected_reason = none;
}

abbrev bought : TradeOpenEvent ℤ
bought = record {
  opportunity_id = 1;
  strategy = "single_condition";
  market_ids = "rain" ∷ [];
  legs = [];
  size = pos 9000;
  expected_profit = pos 1000;
}

abbrev settled : TradeCloseEvent ℤ
settled = record { trade_id = 1; realized_profit = pos 1000; reason = "settlement" }

abbrev day_of_calls : List (Call ℤ)
day_of_calls =
    opportunity quiet noon detected
    ∷ trade_open quiet noon bought
    ∷ trade_close quiet noon settled
    ∷ latency quiet noon 12
    ∷ []

abbrev after_day : Database ℤ ℕ
after_day = run_calls f32 day_of_calls empty

-- Another connection closes a trade between the statements of a call.
abbrev meanwhile : Others ℤ ℕ
meanwhile gap db = record_trade_close f32 quiet noon settled alone db

meanwhile-KeepAgreement : KeepAgreement meanwhile
meanwhile-KeepAgreement gap db h =
    RowsAgree-record_trade_close f32 quiet noon settled alone db (λ gap db h. h) h

get_summary-outcomes_example :
    (get_summary f32 quiet 100 100 (
        run_calls_among f32
          ((meanwhile, latency quiet noon 12) ∷ (alone, trade_close quiet noon settled) ∷ [])
          empty)).win_count
      + (get_summary f32 quiet 100 100 (
          run_calls_among f32
            ((meanwhile, latency quiet noon 12) ∷ (alone, trade_close quiet noon settled) ∷ [])
            empty)).loss_count
    ≡ (get_summary f32 quiet 100 100 (
        run_calls_among f32
          ((meanwhile, latency quiet noon 12) ∷ (alone, trade_close quiet noon settled) ∷ [])
          empty)).trades_closed
get_summary-outcomes_example =
    get_summary-outcomes f32
      ((meanwhile, latency quiet noon 12) ∷ (alone, trade_close quiet noon settled) ∷ []) quiet 100
      100 (meanwhile-KeepAgreement, ((λ gap db h. h), tt))

-- The close that comes while the latency is written back is not counted.
record_latency-lost_example :
    (count_on
        (λ row. row.opportunities_detected)
        100
        (record_latency f32 quiet noon 12 meanwhile after_day)
      ≡ count_on (λ row. row.opportunities_detected) 100 after_day)
    × (count_on
          (λ row. row.trades_opened)
          100
          (record_latency f32 quiet noon 12 meanwhile after_day)
        ≡ count_on (λ row. row.trades_opened) 100 after_day)
    × (count_on
          (λ row. row.trades_closed)
          100
          (record_latency f32 quiet noon 12 meanwhile after_day)
        ≡ count_on (λ row. row.trades_closed) 100 after_day)
record_latency-lost_example = record_latency-lost f32 noon 12 meanwhile after_day

-- The trade has been closed before.
record_trade_close_counted_example :
    total
      (λ date. nat_beq date 100)
      closed
      (record_trade_close f32 quiet noon settled alone after_day).daily_stats
    ≡ suc (total (λ date. nat_beq date 100) closed after_day.daily_stats)
record_trade_close_counted_example = record_trade_close_counted f32 noon settled after_day

-- The last statement fails.
abbrev broken : Faults
broken replace_strategy = true
broken s = false

record_trade_open_effect_example :
    ((commits quiet bought.strategy ≡ true)
      × ((record_trade_open f32 quiet noon bought after_day).0 ≡ some after_day.next_trade)
      × Stored f32 noon bought after_day (record_trade_open f32 quiet noon bought after_day).1)
    ⊎ ((commits quiet bought.strategy ≡ false)
        × ((record_trade_open f32 quiet noon bought after_day).0 ≡ none)
        × ((record_trade_open f32 quiet noon bought after_day).1 ≡ after_day))
record_trade_open_effect_example = record_trade_open_effect f32 quiet noon bought after_day

not_stored : (record_trade_open f32 broken noon bought empty).0 ≡ none
unfolding record_trade_open transaction update_daily_stats_with_conn replace_rows lookup insert
not_stored = refl
