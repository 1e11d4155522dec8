-- ===== src/Recorder/Lost.antt =====
-- What a latency (src/adapter/outbound/sqlite/recorder.rs) does to the counts of others.
use edgelord.Common.{ℕ, ◌≡◌, refl, string_eq, nat_eq, insert, arith, ==_refl}
use edgelord.Recorder.Defs.{
  Moment, Single, Database, DailyStatsRow, Others, daily_of, no_strategy_stats, no_stats,
  update_daily_stats, update_daily_stats_with_conn, replace_rows, before_replace, between_reads,
}
use edgelord.Recorder.Rows.{record_latency, latency_updater}
use edgelord.Recorder.Closing.{quiet}
use edgelord.Recorder.Opening.{count_on, count_in, count_in-insert, count_in-row_or}

module _ {D F : Type 0} (x : Single D F) where
  -- A latency that is recorded without a failure leaves the opportunities, the opened and the closed
  -- trades of its day as many as they were when it read them, whatever other connections count before
  -- it writes its row back: what they count meanwhile is lost.
  pub record_latency-lost :
      (now : Moment) (latency_ms : ℕ) (others : Others D F) (db : Database D F)
      → let after = record_latency x quiet now latency_ms others db in
        (count_on (λ row. row.opportunities_detected) now.date after
          ≡ count_on (λ row. row.opportunities_detected) now.date db)
        × (count_on (λ row. row.trades_opened) now.date after
            ≡ count_on (λ row. row.trades_opened) now.date db)
        × (count_on (λ row. row.trades_closed) now.date after
            ≡ count_on (λ row. row.trades_closed) now.date db)
  unfolding record_latency update_daily_stats update_daily_stats_with_conn replace_rows
  record_latency-lost now latency_ms others db =
      let seen = others before_replace (others between_reads db) in
      let row =
        (latency_updater x latency_ms (daily_of x quiet now.date db, no_strategy_stats x)).0 in
      (
        back (λ r. r.opportunities_detected) row seen db refl refl,
        back (λ r. r.trades_opened) row seen db refl refl,
        back (λ r. r.trades_closed) row seen db refl refl,
      )
    where
      back :
          (column : DailyStatsRow F → ℕ) (row : DailyStatsRow F) (seen db : Database D F)
          → column row ≡ column (daily_of x quiet now.date db)
          → column (no_stats x) ≡ 0
          → count_in column now.date (insert now.date row seen.daily_stats)
            ≡ count_on column now.date db
      back column row seen db kept zero = ground (
        arith,
        kept,
        ==_refl now.date,
        count_in-insert column now.date now.date row seen.daily_stats,
        count_in-row_or column now.date (no_stats x) db.daily_stats zero,
      )
