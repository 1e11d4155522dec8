-- ===== src/System/Refinement.antt =====
-- The handlers are runs of the system: what holds of every reachable system holds after every event
-- (`handle_market_event`) and at the end of every execution (`finish`).
use edgelord.Common.{
  ℕ, ◌≡◌, refl, sym, ap, subst, ◌∙◌, ◌⊎◌, inl, inr, true, List, [], ◌∷◌, ◌++◌, Option, arith,
  contains, set_insert, string_eq, Bool-cases, Option-cases,
}
use edgelord.Money.{Decimal, ◌≼◌}
use edgelord.Domain.Id.{Time}
use edgelord.Domain.Opportunity.{Opportunity}
use edgelord.Domain.Trade.{success, partial, failed}
use edgelord.State.{AppState, RiskLimits, try_lock_execution, release_execution, release_exposure}
use edgelord.Risk.{RiskCheckResult, approved, rejected, check, amount_of}
use edgelord.Risk.Check.{check_effect}
use edgelord.Orchestration.World.{World, Task, notify, opportunity_detected}
use edgelord.Orchestration.Opportunity.Handle.{
  Config, handle_opportunity, handle_locked, refuse_slippage, refuse_risk, decide, proceed,
  slippage_error,
}
use edgelord.Orchestration.Execution.Finish.{
  ExecutionOutcome, done, refused, timed_out, Exchange, finish, conclude, settle_success,
  settle_partial, record_trade, cancel_failed,
}
use edgelord.Orchestration.Execution.Finish
use edgelord.Orchestration.Record.{record_position}
use edgelord.System.Steps.{
  Flight, flight, Reach, later, locked, reserved, released, lock, move, unlock, reserve,
  record_full, record_partial, give_back, settle_up,
}

module _ {D : Type 0} ⦃d : Decimal D⦄ (limits : RiskLimits D) where
  abbrev Reaches : AppState D → List (Flight D) → Type 0
  Reaches s fs = Reach limits (record { state = s; flights = fs })

  -- A flight that never got a reservation is dropped.
  Reaches-refuse :
      {s : AppState D} {fs : List (Flight D)} (o : Opportunity D)
      → Reaches s (flight o locked ∷ fs)
      → Reaches (release_execution o.market_id s) fs
  Reaches-refuse {fs = fs} o r = later r (unlock [] fs o locked refl (λ e. cc) (λ e. cc))

  -- A reservation is given back and the flight ends.
  Reaches-undo :
      {s : AppState D} (before after : List (Flight D)) (o : Opportunity D)
      → Reaches s (before ++ (flight o reserved ∷ after))
      → Reaches (release_execution o.market_id (release_exposure (amount_of o) s)) (before ++ after)
  Reaches-undo before after o r =
      later (later r (move before after o refl give_back))
        (unlock before after o released refl (λ e. cc) (λ e. cc))

  Reaches-complete :
      (now : Time) (trade_id : Option ℕ) {s : AppState D} (before after : List (Flight D))
      (o : Opportunity D)
      → Reaches s (before ++ (flight o reserved ∷ after))
      → Reaches
          (release_execution o.market_id
            (release_exposure (amount_of o) (record_position now o trade_id s)))
          (before ++ after)
  Reaches-complete now trade_id before after o r =
      later
        (later (later r (move before after o refl (record_full now trade_id)))
          (move before after o refl settle_up))
        (unlock before after o released refl (λ e. cc) (λ e. cc))

  record_trade-state :
      (ex : Exchange D) (task : Task D) (w : World D) → (record_trade ex task w).0.state ≡ w.state
  unfolding record_trade
  record_trade-state ex task w = ground arith

  module _ (ex : Exchange D) (now : Time) (task : Task D) (before after : List (Flight D)) where
    -- When a flight holds a reservation, the end of its execution, for every outcome, is a run of the
    -- system after which just this flight is over.
    pub Reach-finish :
        (outcome : ExecutionOutcome) (w : World D)
        → Reach limits (record {
          state = w.state;
          flights = before ++ (flight task.opportunity reserved ∷ after);
        })
        → Reach limits
            (record { state = (finish ex now task outcome w).state; flights = before ++ after })
    unfolding finish Finish.settle settle_success settle_partial conclude
    Reach-finish (done (success fills)) w r =
        rw (record_trade-state ex task w)
          (Reaches-complete now (record_trade ex task w).1 before after task.opportunity r)
    Reach-finish (done (partial fills failures)) w r = elim (Bool-cases (cancel_failed ex fills)) [
      | inl e ↦
          rw (e, settle_partial)
            (Reaches-undo before after task.opportunity (
              later r
                (move before after task.opportunity refl (record_partial now fills failures))))
      | inr e ↦ rw (e, settle_partial) (Reaches-undo before after task.opportunity r)
    ]
    Reach-finish (done (failed reason)) w r = Reaches-undo before after task.opportunity r
    Reach-finish (refused e) w r = Reaches-undo before after task.opportunity r
    Reach-finish timed_out w r = Reaches-undo before after task.opportunity r

  module _ (c : Config D) (o : Opportunity D) where
    -- The flights after an opportunity has been handled: as before, or with one more that holds a
    -- reservation and whose execution has been spawned.
    abbrev pub Handled : List (Flight D) → List (Task D) → World D → Type 0
    Handled fs tasks v =
        ((v.tasks ≡ tasks) × Reaches v.state fs)
        ⊎ ((task : Task D) × (task.opportunity ≡ o)
            × (v.tasks ≡ tasks ++ (task ∷ []))
            × Reaches v.state (flight o reserved ∷ fs))

    Handled-proceed :
        (fs : List (Flight D)) (w : World D)
        → Reaches w.state (flight o reserved ∷ fs)
        → Handled fs w.tasks (proceed c o w)
    unfolding proceed
    Handled-proceed fs w r = elim (Bool-cases c.dry_run) [
      | inl e ↦ rw (e, proceed) (inl (refl, Reaches-undo [] fs o r))
      | inr e ↦ elim (Bool-cases c.has_executor) [
        | inl f ↦ rw (e, f, proceed) (inr (_, refl, refl, r))
        | inr f ↦ rw (e, f, proceed) (inl (refl, Reaches-undo [] fs o r))
      ]
    ]

    Handled-decide :
        (fs : List (Flight D)) (w : World D) (p : AppState D × RiskCheckResult D)
        → check o w.state ≡ p
        → Reaches w.state (flight o locked ∷ fs)
        → Handled fs w.tasks (decide c o w p)
    unfolding decide refuse_risk
    Handled-decide fs w (s, approved) e r =
        Handled-proceed fs (record w { state = s })
          (subst (λ t. Reaches t (flight o reserved ∷ fs)) (ap (λ q. q.0) e)
            (later r (move [] fs o refl (reserve (ap (λ q. q.1) e)))))
    Handled-decide fs w (s, rejected error) e r = elim (check_effect o w.state) [
      | inl (accepted, same) ↦ cc
      | inr (denied, same) ↦ inl (
        refl,
        subst (λ t. Reaches (release_execution o.market_id t) fs) (sym same ∙ ap (λ q. q.0) e)
            (Reaches-refuse o r),
      )
    ]

    Handled-handle_locked :
        (fs : List (Flight D)) (w : World D)
        → Reaches w.state (flight o locked ∷ fs)
        → Handled fs w.tasks (handle_locked c o w)
    unfolding handle_locked refuse_slippage
    Handled-handle_locked fs w r = elim (Option-cases (slippage_error o w)) [
      | inl e ↦
          rw (e, handle_locked)
            (Handled-decide fs (notify (opportunity_detected o) w) (check o w.state) refl r)
      | inr (error, e) ↦ rw (e, handle_locked) (inl (refl, Reaches-refuse o r))
    ]

    -- Handling an opportunity that does not cost less than nothing is a run of the system, which adds
    -- at most one flight, and adds one just when it spawns an execution.
    pub Reach-handle_opportunity :
        (fs : List (Flight D)) (w : World D)
        → d.nought ≼ amount_of o
        → Reach limits (record { state = w.state; flights = fs })
        → Handled fs w.tasks (handle_opportunity c o w)
    unfolding handle_opportunity try_lock_execution set_insert
    Reach-handle_opportunity fs w n r =
        elim (Bool-cases (contains o.market_id w.state.pending_executions)) [
          | inl e ↦ rw e (inl (refl, r))
          | inr e ↦
              let free : (try_lock_execution o.market_id w.state).1 ≡ true = rw e refl in
              let s : AppState D = (try_lock_execution o.market_id w.state).0 in
              rw free (Handled-handle_locked fs (record w { state = s }) (later r (lock o n free)))
        ]
