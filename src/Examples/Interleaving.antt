-- ===== src/Examples/Interleaving.antt =====
-- A run of the system: an opportunity is taken up, reserved and recorded, and its market settles
-- before the reservation is given back.
use edgelord.Common.{◌≡◌, refl, true, [], ◌∷◌, none, filter, contains, set_insert}
use edgelord.Common.Int.{ℤ, pos, ◌+ℤ◌, ◌-ℤ◌}
use edgelord.Money.{◌≼◌, sum, sum_from}
use edgelord.Money.Cents.{cents, cents-IsExact}
use edgelord.State.{AppState, exposure, try_lock_execution, try_reserve_exposure, new}
use edgelord.Tracker
use edgelord.Tracker.{total_exposure}
use edgelord.Risk.{check, approved, amount_of, market_exposure}
use edgelord.Settlement.{manual_exit, close_all_for_market}
use edgelord.Orchestration.Record.{record_position}
use edgelord.System.Steps.{
  System, flight, reserved, recorded, Reach, start, later, lock, move, settle, reserve, record_full,
}
use edgelord.System.Locks.{LocksMatch, Reach-LocksMatch}
use edgelord.System.Weights.{total, held}
use edgelord.System.Budget.{highest_limit, Reach-exposure_within}
use edgelord.System.Refinement.{Reach-finish, Handled, Reach-handle_opportunity}
use edgelord.System.Events.{Ran, Reach-handle_market_event}
use edgelord.Domain.Market.Registry.{empty, add}
use edgelord.Orchestration.Opportunity.{handle_opportunity}
use edgelord.Orchestration.Execution.{finish, timed_out}
use edgelord.Exchange.Event.{book_snapshot}
use edgelord.Orchestration.Event.{Services, handle_market_event}
use edgelord.Examples.Data.{found, limits, rain, book, config, exchange, task, world}

abbrev first : AppState ℤ
first = new limits

abbrev taken : AppState ℤ
taken = (try_lock_execution "rain" first).0

abbrev checked : AppState ℤ
checked = (check found taken).0

abbrev bought : AppState ℤ
bought = record_position 5 found none checked

costs_something : pos 0 ≼ amount_of found
unfolding amount_of sum sum_from ◌+ℤ◌
costs_something = refl

is_free : (try_lock_execution "rain" first).1 ≡ true
unfolding try_lock_execution set_insert contains new
is_free = refl

is_approved : (check found taken).1 ≡ approved
unfolding check amount_of market_exposure try_reserve_exposure try_lock_execution new total_exposure
    filter sum sum_from Tracker.init ◌+ℤ◌ ◌-ℤ◌
is_approved = refl

abbrev last : System ℤ
last = record {
  state = record bought {
    positions =
        (close_all_for_market (λ x. "0") (λ p. pos 1000) manual_exit bought.positions
          "rain").tracker;
  };
  flights = flight found recorded ∷ [];
}

run : Reach limits last
run =
    later
      (later
        (later (later start (lock found costs_something is_free))
          (move [] [] found refl (reserve is_approved)))
        (move [] [] found refl (record_full 5 none)))
      (settle (λ x. "0") (λ p. pos 1000) manual_exit "rain")

Reach-exposure_within_example :
    (last.state.pending_exposure ≡ total held last.flights)
    × (exposure last.state ≼ highest_limit run)
Reach-exposure_within_example = Reach-exposure_within refl run

Reach-LocksMatch_example : LocksMatch last
Reach-LocksMatch_example = Reach-LocksMatch run

-- The rest of the run: the reservation is given back and the market unlocked.
abbrev services : Services ℤ
services = record {
  config = config;
  registry = add empty rain;
  detect = λ ctx. found ∷ [];
  show = λ x. "0";
}

reserved_run : Reach limits (record { state = checked; flights = flight found reserved ∷ [] })
reserved_run =
    later (later start (lock found costs_something is_free))
      (move [] [] found refl (reserve is_approved))

Reach-finish_example :
    Reach limits
      (record { state = (finish exchange 5 task timed_out (world checked)).state; flights = [] })
Reach-finish_example =
    Reach-finish limits exchange 5 task [] [] timed_out (world checked) reserved_run

Reach-handle_opportunity_example :
    Handled limits config found [] [] (handle_opportunity config found (world first))
Reach-handle_opportunity_example =
    Reach-handle_opportunity limits config found [] (world first) costs_something start

Reach-handle_market_event_example :
    Ran limits services [] []
      (handle_market_event services (book_snapshot "yes" (book "yes" 40 10000)) (world first))
Reach-handle_market_event_example =
    Reach-handle_market_event limits services (book_snapshot "yes" (book "yes" 40 10000)) []
      (world first) (λ ctx. (costs_something, tt)) start
