-- ===== src/Recorder/Summary.antt =====
-- What `get_summary` (src/adapter/outbound/sqlite/recorder.rs) says of the trades that were closed, when
-- other connections write between the statements of a call.
use edgelord.Common.{◌+◌, ◌≡◌, refl, List, [], ◌∷◌, filter, map, string_eq, nat_eq, All, arith}
use edgelord.Money.{Decimal}
use edgelord.Recorder.Defs.{Date, Single, DailyStatsRow, Faults, Others}
use edgelord.Recorder.Query.{get_summary, add_rows, add_row, is_between, no_summary, StatsSummary}
use edgelord.Recorder.Journal.{Call, run_calls_among, empty}
use edgelord.Recorder.Agreement.{KeepAgreement, Agrees, RowsAgree-run_calls_among}

module _ {D F : Type 0} ⦃d : Decimal D⦄ (x : Single D F) where
  outcomes-add_rows :
      (from to : Date) (s : StatsSummary D) (rows : List (Date × DailyStatsRow F))
      → All (λ e. Agrees e.1) rows
      → s.win_count + s.loss_count ≡ s.trades_closed
      → let t = add_rows x s (map (λ e. e.1) (filter (is_between x from to) rows)) in
        t.win_count + t.loss_count ≡ t.trades_closed
  unfolding add_rows filter
  outcomes-add_rows from to s [] h k = k
  outcomes-add_rows from to s ((date, row) ∷ rows) h k = ground (
    arith,
    outcomes-add_rows from to s rows h.1 k,
    outcomes-add_rows from to (add_row x s row) rows h.1 (omega (arith, k, h.0)),
  )

  -- After any calls of the recorder on a database that was empty, with any failures in them, and with
  -- other connections that write between the statements of each call that no transaction holds
  -- together, where these leave the wins and losses of a day equal to its closed trades if they find
  -- them so: in every summary the wins and the losses add up to the closed trades, even though
  -- a row that is written back may undo what others have counted.
  pub get_summary-outcomes :
      (calls : List (Others D F × Call D)) (faults : Faults) (from to : Date)
      → All (λ c. KeepAgreement c.0) calls
      → let s = get_summary x faults from to (run_calls_among x calls empty) in
        s.win_count + s.loss_count ≡ s.trades_closed
  unfolding get_summary
  get_summary-outcomes calls faults from to keep =
      let rows = (run_calls_among x calls empty).daily_stats in
      ground (
        arith,
        outcomes-add_rows from to (no_summary x) rows
            (RowsAgree-run_calls_among x calls empty keep tt) refl,
      )
