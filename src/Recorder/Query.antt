-- ===== src/Recorder/Query.antt =====
-- The summary of `SqliteRecorder`, and `StatsSummary` of src/domain/stats.rs.
use edgelord.Common.{
  ℕ, ◌+◌, Bool, ◌&&◌, ◌||◌, List, [], ◌∷◌, filter, leb, nat_eq, if◌then◌else◌, map,
}
use edgelord.Money.{Decimal, ◌⊕◌, ◌⊖◌}
use edgelord.Recorder.Defs.{Date, Single, DailyStatsRow, Database, Faults, connection, load_daily}

pub record StatsSummary (D : Type 0) : Type 0 where
  pub opportunities_detected : ℕ
  pub opportunities_executed : ℕ
  pub opportunities_rejected : ℕ
  pub trades_opened : ℕ
  pub trades_closed : ℕ
  pub profit_realized : D
  pub loss_realized : D
  pub win_count : ℕ
  pub loss_count : ℕ
  pub total_volume : D

module _ {D F : Type 0} ⦃d : Decimal D⦄ (x : Single D F) where
  abbrev pub no_summary : StatsSummary D
  no_summary = record {
    opportunities_detected = 0;
    opportunities_executed = 0;
    opportunities_rejected = 0;
    trades_opened = 0;
    trades_closed = 0;
    profit_realized = d.nought;
    loss_realized = d.nought;
    win_count = 0;
    loss_count = 0;
    total_volume = d.nought;
  }

  -- The body of the loop.
  abbrev pub add_row : StatsSummary D → DailyStatsRow F → StatsSummary D
  add_row s row = record {
    opportunities_detected = s.opportunities_detected + row.opportunities_detected;
    opportunities_executed = s.opportunities_executed + row.opportunities_executed;
    opportunities_rejected = s.opportunities_rejected + row.opportunities_rejected;
    trades_opened = s.trades_opened + row.trades_opened;
    trades_closed = s.trades_closed + row.trades_closed;
    profit_realized = s.profit_realized ⊕ x.f32_to_decimal row.profit_realized;
    loss_realized = s.loss_realized ⊕ x.f32_to_decimal row.loss_realized;
    win_count = s.win_count + row.win_count;
    loss_count = s.loss_count + row.loss_count;
    total_volume = s.total_volume ⊕ x.f32_to_decimal row.total_volume;
  }

  unfoldable pub add_rows : StatsSummary D → List (DailyStatsRow F) → StatsSummary D
  add_rows s [] = s
  add_rows s (row ∷ rows) = add_rows (add_row s row) rows

  abbrev pub summary_from_rows : List (DailyStatsRow F) → StatsSummary D
  summary_from_rows rows = add_rows no_summary rows

  abbrev pub is_between : Date → Date → Date × DailyStatsRow F → Bool
  is_between from to (date, row) = leb from date && leb date to

  -- `load(...).unwrap_or_default()`: a query that fails answers no rows.
  unfoldable pub get_summary : Faults → Date → Date → Database D F → StatsSummary D
  get_summary faults from to db =
      if faults connection || faults load_daily
      then no_summary
      else summary_from_rows (map (λ e. e.1) (filter (is_between from to) db.daily_stats))

  abbrev pub get_today : Faults → (today : Date) → Database D F → StatsSummary D
  get_today faults today = get_summary faults today today

  abbrev pub net_profit : StatsSummary D → D
  net_profit s = s.profit_realized ⊖ s.loss_realized
