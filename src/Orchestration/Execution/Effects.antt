-- ===== src/Orchestration/Execution/Effects.antt =====
-- What an execution leaves behind, whatever came of it.
use edgelord.Common.{
  ℕ, ◌≡◌, refl, sym, ap, ◌∙◌, inl, inr, not, ◌&&◌, List, Option, none, some, arith, Bool-cases,
  contains, contains-set_remove, if◌then◌else◌, string_eq, ◌==◌,
}
use edgelord.Money.{Decimal, IsExact, ◌⊕◌, ◌⊖◌, ◌≼◌, nought_⊕}
use edgelord.Domain.Id.{MarketId, Time}
use edgelord.Domain.Trade.{Fill, Failure, success, partial, failed}
use edgelord.Risk.{amount_of}
use edgelord.State.{AppState, exposure, release_execution, release_exposure}
use edgelord.State.Reservation.{release_exposure_lem}
use edgelord.Tracker.{Tracker, add, total_exposure}
use edgelord.Tracker.Exposure.{total_exposure-append}
use edgelord.Orchestration.Record.{record_position, record_partial_position}
use edgelord.Orchestration.World.{World, Task}
use edgelord.Orchestration.Execution.Finish.{
  ExecutionOutcome, done, refused, timed_out, Exchange, finish, conclude, settle, record_trade,
  cancel_failed,
}

module _ {D : Type 0} ⦃d : Decimal D⦄ ⦃x : IsExact D⦄ (ex : Exchange D) (now : Time)
    (task : Task D) where
  -- The tracker that an outcome leaves.
  abbrev pub tracker_after : ExecutionOutcome → World D → Tracker D
  tracker_after (done (success fills)) w =
      (record_position now task.opportunity (record_trade ex task w).1 w.state).positions
  tracker_after (done (partial fills failures)) w =
      if cancel_failed ex fills
      then (record_partial_position now task.opportunity fills failures none w.state).positions
      else w.state.positions
  tracker_after (done (failed reason)) w = w.state.positions
  tracker_after (refused e) w = w.state.positions
  tracker_after timed_out w = w.state.positions

  record_trade_rest :
      (w : World D)
      → let v = (record_trade ex task w).0 in
        (v.state ≡ w.state) × (v.cache ≡ w.cache) × (v.tasks ≡ w.tasks)
  unfolding record_trade
  record_trade_rest w = ground arith

  conclude_state :
      (outcome : ExecutionOutcome) (w : World D)
      → amount_of task.opportunity ≼ w.state.pending_exposure
      → (conclude ex now task outcome w).state ≡ record w.state {
        positions = tracker_after outcome w;
        pending_exposure = w.state.pending_exposure ⊖ amount_of task.opportunity;
      }
  unfolding conclude settle record_trade record_position record_partial_position
  conclude_state (done (success fills)) w h =
      let same = (record_trade_rest w).0 in
      ap
        (λ s.
          release_exposure (amount_of task.opportunity)
            (record_position now task.opportunity (record_trade ex task w).1 s))
        same
      ∙ release_exposure_lem _
          (record_position now task.opportunity (record_trade ex task w).1 w.state) h
  conclude_state (done (partial fills failures)) w h = elim (Bool-cases (cancel_failed ex fills)) [
    | inl e ↦
        rw (e, settle)
          (release_exposure_lem _
            (record_partial_position now task.opportunity fills failures none w.state) h)
    | inr e ↦ rw (e, settle) (release_exposure_lem _ w.state h)
  ]
  conclude_state (done (failed reason)) w h = release_exposure_lem _ w.state h
  conclude_state (refused e) w h = release_exposure_lem _ w.state h
  conclude_state timed_out w h = release_exposure_lem _ w.state h

  conclude_rest :
      (outcome : ExecutionOutcome) (w : World D)
      → ((conclude ex now task outcome w).cache ≡ w.cache)
        × ((conclude ex now task outcome w).tasks ≡ w.tasks)
  unfolding conclude settle record_trade
  conclude_rest (done (success fills)) w = ground arith
  conclude_rest (done (partial fills failures)) w = ground arith
  conclude_rest (done (failed reason)) w = (refl, refl)
  conclude_rest (refused e) w = (refl, refl)
  conclude_rest timed_out w = (refl, refl)

  -- The end of an execution, for every outcome, when at least its cost is reserved: the cost of the opportunity is no longer reserved,
  -- its market is unlocked and no other, and the limits, the circuit breaker, the cache and the
  -- spawned tasks are left alone.
  pub finish_releases :
      (outcome : ExecutionOutcome) (w : World D) (m : MarketId)
      → amount_of task.opportunity ≼ w.state.pending_exposure
      → let v = finish ex now task outcome w in
        (v.state.pending_exposure ≡ w.state.pending_exposure ⊖ amount_of task.opportunity)
        × (contains m v.state.pending_executions
            ≡ (not (task.opportunity.market_id == m) && contains m w.state.pending_executions))
        × (v.state.risk_limits ≡ w.state.risk_limits)
        × (v.state.circuit_breaker ≡ w.state.circuit_breaker)
        × (v.cache ≡ w.cache)
        × (v.tasks ≡ w.tasks)
  unfolding finish release_execution
  finish_releases outcome w m h =
      let e = conclude_state outcome w h in
      let (cache, tasks) = conclude_rest outcome w in
      (
        rw e,
        rw e (contains-set_remove task.opportunity.market_id m w.state.pending_executions),
        rw e,
        rw e,
        cache,
        tasks,
      )

  exposure-record_position :
      (trade_id : Option ℕ) (s : AppState D)
      → exposure (record_position now task.opportunity trade_id s)
        ≡ amount_of task.opportunity ⊕ exposure s
  unfolding record_position add amount_of
  exposure-record_position none s = total_exposure-append s.positions.positions _
  exposure-record_position (some t) s = total_exposure-append s.positions.positions _

  exposure-record_partial_position :
      (fills : List Fill) (failures : List Failure) (s : AppState D)
      → exposure (record_partial_position now task.opportunity fills failures none s) ≡ exposure s
  unfolding record_partial_position add
  exposure-record_partial_position fills failures s =
      total_exposure-append s.positions.positions _ ∙ nought_⊕ _

  -- What an outcome turns from a reservation into exposure.
  abbrev pub invested : ExecutionOutcome → D
  invested (done (success fills)) = amount_of task.opportunity
  invested (done (partial fills failures)) = d.nought
  invested (done (failed reason)) = d.nought
  invested (refused e) = d.nought
  invested timed_out = d.nought

  -- When at least its cost is reserved, after a successful execution the exposure of the open positions has grown by the cost of the
  -- opportunity, just what was reserved for it. After any other outcome it is what it was, also
  -- after a partial fill that could not be cancelled and is recorded as a position.
  pub exposure-finish :
      (outcome : ExecutionOutcome) (w : World D)
      → amount_of task.opportunity ≼ w.state.pending_exposure
      → exposure (finish ex now task outcome w).state ≡ invested outcome ⊕ exposure w.state
  unfolding finish release_execution
  exposure-finish outcome w h = rw (conclude_state outcome w h) (go outcome)
    where
      go :
          (r : ExecutionOutcome)
          → total_exposure (tracker_after r w).positions ≡ invested r ⊕ exposure w.state
      go (done (success fills)) = exposure-record_position _ w.state
      go (done (partial fills failures)) = elim (Bool-cases (cancel_failed ex fills)) [
        | inl e ↦ rw e (exposure-record_partial_position fills failures w.state ∙ sym (nought_⊕ _))
        | inr e ↦ rw e (sym (nought_⊕ _))
      ]
      go (done (failed reason)) = sym (nought_⊕ _)
      go (refused e) = sym (nought_⊕ _)
      go timed_out = sym (nought_⊕ _)
