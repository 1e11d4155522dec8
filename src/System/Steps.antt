-- ===== src/System/Steps.antt =====
-- The steps. A flight is an opportunity between the locking of its market and the release of the lock,
-- in the event loop (`handle_opportunity`) or in its execution task (`spawn_execution`).
use edgelord.Common.{ℕ, ◌≡◌, ◌≢◌, true, List, [], ◌∷◌, ◌++◌, String, Option, none}
use edgelord.Money.{Decimal, ◌≼◌}
use edgelord.Domain.Id.{MarketId, Time}
use edgelord.Domain.Opportunity.{Opportunity}
use edgelord.Domain.Position.{Position}
use edgelord.Domain.Trade.{Fill, Failure}
use edgelord.Risk.{approved, check, amount_of}
use edgelord.Settlement.{CloseReason, close_all_for_market}
use edgelord.State.{
  AppState, RiskLimits, RiskLimitKind, try_lock_execution, release_execution, release_exposure,
  set_risk_limit, activate_circuit_breaker, reset_circuit_breaker, new,
}
use edgelord.Orchestration.Record.{record_position, record_partial_position}

-- Locked only; locked with its cost reserved; recorded as a position and still reserved; no longer
-- reserved.
pub data Phase : Type 0 where
  locked reserved recorded released : Phase

pub record Flight (D : Type 0) : Type 0 where
  pub opportunity : Opportunity D
  pub phase : Phase

pub record System (D : Type 0) : Type 0 where
  pub state : AppState D
  pub flights : List (Flight D)

abbrev pub flight : {D : Type 0} → Opportunity D → Phase → Flight D
flight o phase = record { opportunity = o; phase = phase }

module _ {D : Type 0} ⦃d : Decimal D⦄ where
  -- One flight, of `o`, moves on.
  pub data Move (s : AppState D) (o : Opportunity D) : Phase → AppState D → Phase → Type 0 where
    -- The risk check approves.
    reserve : (check o s).1 ≡ approved → Move s o locked (check o s).0 reserved
    -- A full execution is recorded.
    record_full :
        (now : Time) (trade_id : Option ℕ)
        → Move s o reserved (record_position now o trade_id s) recorded
    -- A partial one whose cancellation failed is recorded, and counts for no exposure.
    record_partial :
        (now : Time) (fills : List Fill) (failures : List Failure)
        → Move s o reserved (record_partial_position now o fills failures none s) reserved
    -- The reservation is given back: after a recording, a failure, a timeout or in a dry run.
    give_back : Move s o reserved (release_exposure (amount_of o) s) released
    settle_up : Move s o recorded (release_exposure (amount_of o) s) released

  pub data Step (s : System D) : System D → Type 0 where
    -- The event loop takes up an opportunity that does not cost less than nothing and whose market is
    -- free.
    lock :
        (o : Opportunity D)
        → d.nought ≼ amount_of o
        → (try_lock_execution o.market_id s.state).1 ≡ true
        → Step s (record {
          state = (try_lock_execution o.market_id s.state).0;
          flights = flight o locked ∷ s.flights;
        })
    move :
        (before after : List (Flight D)) (o : Opportunity D) {p q : Phase} {t : AppState D}
        → s.flights ≡ before ++ (flight o p ∷ after)
        → Move s.state o p t q
        → Step s (record { state = t; flights = before ++ (flight o q ∷ after) })
    -- A flight that holds no reservation ends: it was refused, or it is over.
    unlock :
        (before after : List (Flight D)) (o : Opportunity D) (p : Phase)
        → s.flights ≡ before ++ (flight o p ∷ after)
        → p ≢ reserved
        → p ≢ recorded
        → Step s
            (record { state = release_execution o.market_id s.state; flights = before ++ after })
    -- A market settles.
    settle :
        (show : D → String) (pnl_of : Position D → D) (reason : CloseReason D) (m : MarketId)
        → Step s (record s {
          state = record s.state {
            positions = (close_all_for_market show pnl_of reason s.state.positions m).tracker;
          };
        })
    -- The operator sets a limit.
    set_limit :
        (kind : RiskLimitKind) (v : D)
        → Step s (record s { state = (set_risk_limit kind v s.state).0 })
    trip : (reason : String) → Step s (record s { state = activate_circuit_breaker reason s.state })
    reset : Step s (record s { state = reset_circuit_breaker s.state })

  pub data Reach (limits : RiskLimits D) : System D → Type 0 where
    start : Reach limits (record { state = new limits; flights = [] })
    later : {s t : System D} → Reach limits s → Step s t → Reach limits t
