-- ===== src/Recorder/Agreement.antt =====
-- The wins and losses in the rows of the days, when other connections write between the statements of
-- a call (src/adapter/outbound/sqlite/recorder.rs).
use edgelord.Common.{
  ℕ, ◌+◌, ◌≡◌, subst, suc, String, List, [], ◌∷◌, ◌++◌, map, some, lookup, insert, string_eq,
  nat_eq, ◌==◌, All, arith, Option-cases, inl, inr, Bool-cases,
}
use edgelord.Money.{Decimal, ◌<?◌}
use edgelord.Settlement.{TradeCloseEvent}
use edgelord.Recorder.Defs.{
  Date, Moment, Single, Database, DailyStatsRow, StrategyDailyStatsRow, Faults, Statement, Updater,
  Others, Gap, before_close, before_counting, between_reads, before_replace, between_replaces,
  alone, daily_of, strategy_of, update_daily_stats, update_daily_stats_with_conn, replace_rows,
  connection, second_connection, transaction,
}
use edgelord.Recorder.Rows.{
  record_opportunity, record_trade_open, record_trade_close, record_latency, update_peak_exposure,
  prune_old_records, detect_updater, open_updater, close_updater, latency_updater, peak_updater,
  strategy_of_trade, closed_row, opportunity_row, trade_row,
}
use edgelord.Recorder.Journal.{
  Call, opportunity, trade_open, trade_close, latency, peak_exposure, prune, run_call_among,
  run_calls_among,
}

-- In a day's row, the wins and the losses add up to the closed trades.
abbrev pub Agrees : {F : Type 0} → DailyStatsRow F → Type 0
Agrees row = row.win_count + row.loss_count ≡ row.trades_closed

abbrev pub RowsAgree : {D F : Type 0} → Database D F → Type 0
RowsAgree db = All (λ e. Agrees e.1) db.daily_stats

-- The other connections leave rows that agree, if they find such.
abbrev pub KeepAgreement : {D F : Type 0} → Others D F → Type 0
KeepAgreement {D} {F} others =
    (gap : Gap) (db : Database D F) → RowsAgree db → RowsAgree (others gap db)

-- An updater that moves the wins and losses as the closed trades.
abbrev IsBalanced : {F : Type 0} → Updater F → Type 0
IsBalanced {F} updater =
    (rows : DailyStatsRow F × StrategyDailyStatsRow F) → Agrees rows.0 → Agrees (updater rows).0

All-insert :
    {A : Type 0} (P : A → Type 0) (k : ℕ) (a : A) (es : List (ℕ × A))
    → P a
    → All (λ e. P e.1) es
    → All (λ e. P e.1) (insert k a es)
unfolding insert
All-insert P k a [] here h = (here, tt)
All-insert P k a (e ∷ es) here h = elim (Bool-cases (e.0 == k)) [
  | inl same ↦ rw same (here, h.1)
  | inr other ↦ rw other (h.0, All-insert P k a es here h.1)
]

All-lookup :
    {A : Type 0} (P : A → Type 0) (k : ℕ) (es : List (ℕ × A)) (a : A)
    → All (λ e. P e.1) es
    → lookup k es ≡ some a
    → P a
unfolding lookup
All-lookup P k [] a h found = absurd (cc)
All-lookup P k (e ∷ es) a h found = elim (Bool-cases (e.0 == k)) [
  | inl same ↦ let here : e.1 ≡ a = ground (arith, same, found) in subst P here h.0
  | inr other ↦ All-lookup P k es a h.1 (ground (arith, other, found))
]

module _ {D F : Type 0} (x : Single D F) where
  Agrees-daily_of :
      (faults : Faults) (at : Date) (db : Database D F)
      → RowsAgree db
      → Agrees (daily_of x faults at db)
  Agrees-daily_of faults at db h = elim (Option-cases (lookup at db.daily_stats)) [
    | inl e ↦ ground (arith, e)
    | inr (row, e) ↦ ground (arith, e, All-lookup Agrees at db.daily_stats row h e)
  ]

  RowsAgree-replace_rows :
      (faults : Faults) (at : Date) (strategy : String)
      (rows : DailyStatsRow F × StrategyDailyStatsRow F) (others : Others D F) (db : Database D F)
      → KeepAgreement others
      → Agrees rows.0
      → RowsAgree db
      → RowsAgree (replace_rows x faults at strategy rows others db).1
  unfolding replace_rows
  RowsAgree-replace_rows faults at strategy rows others db keep row h =
      let stored = record db { daily_stats = insert at rows.0 db.daily_stats } in
      let kept : RowsAgree stored = All-insert Agrees at rows.0 db.daily_stats row h in
      ground (arith, h, kept, keep between_replaces stored kept)

  RowsAgree-update_daily_stats_with_conn :
      (faults : Faults) (at : Date) (strategy : String) (updater : Updater F) (others : Others D F)
      (db : Database D F)
      → KeepAgreement others
      → IsBalanced updater
      → RowsAgree db
      → RowsAgree (update_daily_stats_with_conn x faults at strategy updater others db).1
  unfolding update_daily_stats_with_conn
  RowsAgree-update_daily_stats_with_conn faults at strategy updater others db keep moved h =
      let seen = others between_reads db in
      let kept = keep between_reads db h in
      let rows : DailyStatsRow F × StrategyDailyStatsRow F =
        (daily_of x faults at db, strategy_of x faults at strategy seen) in
      let done =
        RowsAgree-replace_rows faults at strategy (updater rows) others (others before_replace seen)
          keep (moved rows (Agrees-daily_of faults at db h)) (keep before_replace seen kept) in
      ground (arith, h, kept, done)

  RowsAgree-update_daily_stats :
      (faults : Faults) (get : Statement) (at : Date) (strategy : String) (updater : Updater F)
      (others : Others D F) (db : Database D F)
      → KeepAgreement others
      → IsBalanced updater
      → RowsAgree db
      → RowsAgree (update_daily_stats x faults get at strategy updater others db)
  unfolding update_daily_stats
  RowsAgree-update_daily_stats faults get at strategy updater others db keep moved h = ground (
    arith,
    h,
    RowsAgree-update_daily_stats_with_conn faults at strategy updater others db keep moved h,
  )

  RowsAgree-transaction :
      (faults : Faults) (id : ℕ) (at : Date) (strategy : String) (updater : Updater F)
      (db inserted : Database D F)
      → IsBalanced updater
      → RowsAgree db
      → RowsAgree inserted
      → RowsAgree (transaction x faults id at strategy updater db inserted).1
  unfolding transaction
  RowsAgree-transaction faults id at strategy updater db inserted moved h k = ground (
    arith,
    h,
    RowsAgree-update_daily_stats_with_conn faults at strategy updater alone inserted (λ gap e l. l)
        moved k,
  )

module _ {D F : Type 0} ⦃d : Decimal D⦄ (x : Single D F) where
  pub RowsAgree-record_trade_close :
      (faults : Faults) (now : Moment) (e : TradeCloseEvent D) (others : Others D F)
      (db : Database D F)
      → KeepAgreement others
      → RowsAgree db
      → RowsAgree (record_trade_close x faults now e others db)
  unfolding record_trade_close
  RowsAgree-record_trade_close faults now e others db keep h =
      let seen = others before_close db in
      let kept = keep before_close db h in
      let shut : Database D F = record seen { trades = map (closed_row x now e) seen.trades } in
      let counted =
        RowsAgree-update_daily_stats x faults second_connection now.date
          (strategy_of_trade x faults e.trade_id db)
          (close_updater x (d.nought <? e.realized_profit) (x.decimal_to_f32 e.realized_profit))
          others (others before_counting shut) keep (λ rows k. ground (arith, k))
          (keep before_counting shut kept) in
      ground (arith, h, kept, counted)

  RowsAgree-run_call_among :
      (others : Others D F) (c : Call D) (db : Database D F)
      → KeepAgreement others
      → RowsAgree db
      → RowsAgree (run_call_among x others c db)
  unfolding run_call_among record_opportunity record_trade_open record_latency update_peak_exposure
      prune_old_records
  RowsAgree-run_call_among others (opportunity faults now e) db keep h =
      let id = db.next_opportunity in
      ground (
        arith,
        h,
        RowsAgree-transaction x faults id now.date e.strategy (detect_updater e) db
            (record db {
              opportunities = db.opportunities ++ (opportunity_row x now id e ∷ []);
              next_opportunity = suc id;
            })
            (λ rows k. k) h h,
      )
  RowsAgree-run_call_among others (trade_open faults now e) db keep h =
      let id = db.next_trade in
      ground (
        arith,
        h,
        RowsAgree-transaction x faults id now.date e.strategy (open_updater x e) db
            (record db { trades = db.trades ++ (trade_row x now id e ∷ []); next_trade = suc id })
            (λ rows k. k) h h,
      )
  RowsAgree-run_call_among others (trade_close faults now e) db keep h =
      RowsAgree-record_trade_close faults now e others db keep h
  RowsAgree-run_call_among others (latency faults now ms) db keep h =
      RowsAgree-update_daily_stats x faults connection now.date "" (latency_updater x ms) others db
        keep (λ rows k. k) h
  RowsAgree-run_call_among others (peak_exposure faults now e) db keep h =
      RowsAgree-update_daily_stats x faults connection now.date ""
        (peak_updater x (x.decimal_to_f32 e)) others db keep (λ rows k. k) h
  RowsAgree-run_call_among others (prune faults today days) db keep h = ground (arith, h)

  pub RowsAgree-run_calls_among :
      (calls : List (Others D F × Call D)) (db : Database D F)
      → All (λ c. KeepAgreement c.0) calls
      → RowsAgree db
      → RowsAgree (run_calls_among x calls db)
  unfolding run_calls_among
  RowsAgree-run_calls_among [] db keep h = h
  RowsAgree-run_calls_among ((others, c) ∷ calls) db keep h =
      RowsAgree-run_calls_among calls (run_call_among x others c db) keep.1
        (RowsAgree-run_call_among others c db keep.0 h)
