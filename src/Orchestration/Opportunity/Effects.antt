-- ===== src/Orchestration/Opportunity/Effects.antt =====
-- What `handle_opportunity` leaves behind on every path.
use edgelord.Common.{
  ◌≡◌, ◌≢◌, refl, subst, ap, ◌⊎◌, inl, inr, true, false, List, [], ◌∷◌, ◌++◌, arith, Bool-cases,
  Option-cases, contains, set_insert, set_remove-set_insert, string_eq,
}
use edgelord.Money.{Decimal, IsExact, ◌⊕◌, ◌≼◌}
use edgelord.Domain.Id.{MarketId}
use edgelord.Domain.Opportunity.{Opportunity}
use edgelord.Risk.{RiskCheckResult, approved, rejected, check, amount_of}
use edgelord.State.Reservation.{release-reserved}
use edgelord.Risk.Check.{check_effect}
use edgelord.State.{AppState, try_lock_execution, release_execution, release_exposure}
use edgelord.Orchestration.World.{World, Task, notify, opportunity_detected}
use edgelord.Orchestration.Opportunity.Handle.{
  Config, handle_opportunity, handle_locked, refuse_slippage, decide, proceed, slippage_error,
}

module _ {D : Type 0} ⦃d : Decimal D⦄ where
  release-try_lock :
      (m : MarketId) (s : AppState D)
      → contains m s.pending_executions ≡ false
      → release_execution m (try_lock_execution m s).0 ≡ s
  unfolding release_execution try_lock_execution
  release-try_lock m s h = ground (arith, set_remove-set_insert m s.pending_executions h)

module _ {D : Type 0} ⦃d : Decimal D⦄ ⦃x : IsExact D⦄ (c : Config D) (o : Opportunity D) where
  -- The state with the market locked and the cost of the opportunity reserved.
  abbrev pub committed : AppState D → AppState D
  committed s =
      let t = (try_lock_execution o.market_id s).0 in
      record t { pending_exposure = t.pending_exposure ⊕ amount_of o }

  -- Either an execution is spawned, with the state `s`, or the state is `t` and none is.
  pub data Outcome (before : List (Task D)) (s t : AppState D) (v : World D) : Type 0 where
    spawned :
        (task : Task D)
        → task.opportunity ≡ o
        → c.dry_run ≡ false
        → c.has_executor ≡ true
        → v.tasks ≡ before ++ (task ∷ [])
        → v.state ≡ s
        → Outcome before s t v
    dropped : v.tasks ≡ before → v.state ≡ t → Outcome before s t v

  module _ (s : AppState D) (n : d.nought ≼ s.pending_exposure) where
    abbrev reserved : AppState D
    reserved = record s { pending_exposure = s.pending_exposure ⊕ amount_of o }

    undo :
        release_execution o.market_id (release_exposure (amount_of o) reserved)
        ≡ release_execution o.market_id s
    undo = ap (release_execution o.market_id) (release-reserved (amount_of o) s n)

    proceed-Outcome :
        (w : World D)
        → Outcome w.tasks reserved
            (release_execution o.market_id s)
            (proceed c o (record w { state = reserved }))
    unfolding proceed
    proceed-Outcome w = elim (Bool-cases c.dry_run) [
      | inl e ↦ rw (e, proceed) (dropped refl undo)
      | inr e ↦ elim (Bool-cases c.has_executor) [
        | inl f ↦ rw (e, f, proceed) (spawned _ refl refl refl refl refl)
        | inr f ↦ rw (e, f, proceed) (dropped refl undo)
      ]
    ]

    decide-Outcome :
        (w : World D) (p : AppState D × RiskCheckResult D)
        → (((p.1 ≡ approved) × (p.0 ≡ reserved)) ⊎ ((p.1 ≢ approved) × (p.0 ≡ s)))
        → Outcome w.tasks reserved
            (release_execution o.market_id s)
            (decide c o (record w { state = s }) p)
    unfolding decide
    decide-Outcome w (t, approved) (inl (_, e)) = rw e (proceed-Outcome w)
    decide-Outcome w (t, approved) (inr (m, _)) = absurd (m refl)
    decide-Outcome w (t, rejected e) (inl (a, _)) = cc
    decide-Outcome w (t, rejected e) (inr (_, same)) =
        dropped refl (ap (release_execution o.market_id) same)

    handle_locked-Outcome :
        (w : World D)
        → Outcome w.tasks reserved
            (release_execution o.market_id s)
            (handle_locked c o (record w { state = s }))
    unfolding handle_locked refuse_slippage
    handle_locked-Outcome w = elim (Option-cases (slippage_error o (record w { state = s }))) [
      | inl e ↦
          rw (e, handle_locked)
            (decide-Outcome (notify (opportunity_detected o) w) (check o s) (check_effect o s))
      | inr (error, e) ↦ rw (e, handle_locked) (dropped refl refl)
    ]

  handle_opportunity_free :
      (w : World D)
      → contains o.market_id w.state.pending_executions ≡ false
      → handle_opportunity c o w
        ≡ handle_locked c o (record w { state = (try_lock_execution o.market_id w.state).0 })
  unfolding handle_opportunity try_lock_execution set_insert
  handle_opportunity_free w h = rw h

  -- Unless the market is already locked, when there is a reservation of nothing or more before,
  -- `handle_opportunity` does one of two things. Outside of a dry run and with an executor it may
  -- spawn one execution of the opportunity, with its market locked and its cost reserved. Otherwise
  -- it spawns none, and the shared state is exactly as it was: no lock and no reservation is left.
  pub handle_opportunity-Outcome :
      (w : World D)
      → d.nought ≼ w.state.pending_exposure
      → contains o.market_id w.state.pending_executions ≡ false
      → Outcome w.tasks (committed w.state) w.state (handle_opportunity c o w)
  unfolding try_lock_execution
  handle_opportunity-Outcome w n h =
      let t = (try_lock_execution o.market_id w.state).0 in
      rw (handle_opportunity_free w h) (
        subst
          (λ s. Outcome w.tasks (committed w.state) s (handle_locked c o (record w { state = t })))
          (release-try_lock o.market_id w.state h) (handle_locked-Outcome t n w))
