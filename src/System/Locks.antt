-- ===== src/System/Locks.antt =====
-- At most one flight for a market: the locks are the markets of the flights.
use edgelord.Common.{
  ◌≡◌, refl, sym, ap, subst, ◌∙◌, true, false, not, ◌&&◌, ◌||◌, List, [], ◌∷◌, ◌++◌, map, arith,
  Bool-cases, inl, inr, contains, set_insert, contains-set_insert, contains-set_remove, string_eq,
  ◌==◌, ==_iff,
}
use mathlib.Core.List.{map-append}
use edgelord.Money.{Decimal}
use edgelord.Domain.Id.{MarketId}
use edgelord.Domain.Opportunity.{Opportunity}
use edgelord.State.{
  AppState, RiskLimits, RiskLimitKind, try_lock_execution, release_execution, release_exposure,
  set_risk_limit, activate_circuit_breaker, reset_circuit_breaker, new,
}
use edgelord.Risk.Check.{check_effect}
use edgelord.Orchestration.Record.{record_position, record_partial_position}
use edgelord.System.Steps.{
  System, Flight, Phase, flight, Move, Step, Reach, reserve, record_full, record_partial, give_back,
  settle_up, lock, move, unlock, settle, set_limit, trip, reset, start, later,
}

-- No market twice.
abbrev pub Distinct : List MarketId → Type 0
Distinct [] = Unit
Distinct (m ∷ ms) = (contains m ms ≡ false) × Distinct ms

contains-append-cons :
    (m k : MarketId) (xs ys : List MarketId)
    → contains m (xs ++ (k ∷ ys)) ≡ (k == m || contains m (xs ++ ys))
unfolding contains
contains-append-cons m k [] ys = refl
contains-append-cons m k (x ∷ xs) ys = ground (arith, contains-append-cons m k xs ys)

Distinct-append-cons :
    (k : MarketId) (xs ys : List MarketId)
    → Distinct (xs ++ (k ∷ ys))
    → (contains k (xs ++ ys) ≡ false) × Distinct (xs ++ ys)
unfolding contains
Distinct-append-cons k [] ys h = h
Distinct-append-cons k (x ∷ xs) ys (h, hs) =
    let (absent, rest) = Distinct-append-cons k xs ys hs in
    ground (arith, contains-append-cons x k xs ys, ==_iff x k, ==_iff k x)

contains_removed :
    (k m : MarketId) (xs ys : List MarketId)
    → contains k (xs ++ ys) ≡ false
    → (not (k == m) && contains m (xs ++ (k ∷ ys))) ≡ contains m (xs ++ ys)
contains_removed k m xs ys h = elim (Bool-cases (k == m)) [
  | inl e ↦ rw (e, ← (==_iff k m).0 e, h)
  | inr e ↦ rw (e, contains-append-cons m k xs ys, e)
]

module _ {D : Type 0} ⦃d : Decimal D⦄ where
  abbrev pub markets_of : List (Flight D) → List MarketId
  markets_of = map (λ f. f.opportunity.market_id)

  pub record LocksMatch (s : System D) : Type 0 where
    pub locked :
        (m : MarketId) → contains m s.state.pending_executions ≡ contains m (markets_of s.flights)
    pub distinct : Distinct (markets_of s.flights)

  Move-pending_executions :
      {s : AppState D} {o : Opportunity D} {p : Phase} {t : AppState D} {q : Phase}
      → Move s o p t q
      → t.pending_executions ≡ s.pending_executions
  unfolding record_position record_partial_position release_exposure
  Move-pending_executions {s} {o} (reserve h) = ground (arith, check_effect o s)
  Move-pending_executions (record_full now trade) = refl
  Move-pending_executions (record_partial now fills failures) = refl
  Move-pending_executions give_back = refl
  Move-pending_executions settle_up = refl

  locked_new :
      (m : MarketId) (s : AppState D)
      → (try_lock_execution m s).1 ≡ true
      → contains m s.pending_executions ≡ false
  unfolding try_lock_execution set_insert
  locked_new m s h = ground arith

  set_risk_limit-pending_executions :
      (kind : RiskLimitKind) (v : D) (s : AppState D)
      → (set_risk_limit kind v s).0.pending_executions ≡ s.pending_executions
  unfolding set_risk_limit
  set_risk_limit-pending_executions kind v s = ground arith

  markets_of-append :
      (before after : List (Flight D)) (o : Opportunity D) (p : Phase)
      → markets_of (before ++ (flight o p ∷ after))
        ≡ markets_of before ++ (o.market_id ∷ markets_of after)
  markets_of-append before after o p = map-append _ before _

  Step-LocksMatch : {s t : System D} → Step s t → LocksMatch s → LocksMatch t
  unfolding try_lock_execution release_execution activate_circuit_breaker reset_circuit_breaker
      contains
  Step-LocksMatch {s} (lock o n h) v = record {
    locked = λ m. rw (contains-set_insert o.market_id m s.state.pending_executions, v.locked m);
    distinct = (sym (v.locked o.market_id) ∙ locked_new o.market_id s.state h, v.distinct);
  }
  Step-LocksMatch {s} (move before after o {p = p} {q = q} e mv) v =
      let same : markets_of (before ++ (flight o q ∷ after)) ≡ markets_of s.flights =
        markets_of-append before after o q
        ∙ sym (markets_of-append before after o p)
        ∙ ap markets_of (sym e) in
      record {
        locked = λ m. rw (same, Move-pending_executions mv) (v.locked m);
        distinct = rw same v.distinct;
      }
  Step-LocksMatch {s} (unlock before after o p e n n') v =
      let at : markets_of s.flights ≡ markets_of before ++ (o.market_id ∷ markets_of after) =
        ap markets_of e ∙ markets_of-append before after o p in
      let (absent, rest) =
        Distinct-append-cons o.market_id (markets_of before) (markets_of after)
          (subst Distinct at v.distinct) in
      record {
        locked = λ m.
            rw
              (
                contains-set_remove o.market_id m s.state.pending_executions,
                v.locked m,
                at,
                map-append (λ f. f.opportunity.market_id) before after,
              )
              (contains_removed o.market_id m (markets_of before) (markets_of after) absent);
        distinct = rw (map-append (λ f. f.opportunity.market_id) before after) rest;
      }
  Step-LocksMatch (settle show pnl_of reason m) v = record {
    locked = v.locked;
    distinct = v.distinct;
  }
  Step-LocksMatch {s} (set_limit kind x) v = record {
    locked = λ m. rw (set_risk_limit-pending_executions kind x s.state) (v.locked m);
    distinct = v.distinct;
  }
  Step-LocksMatch (trip reason) v = record { locked = v.locked; distinct = v.distinct }
  Step-LocksMatch reset v = record { locked = v.locked; distinct = v.distinct }

  -- In every reachable system the locked markets are exactly the markets of the flights, and no two
  -- flights are for one market.
  pub Reach-LocksMatch : {limits : RiskLimits D} {s : System D} → Reach limits s → LocksMatch s
  unfolding new contains
  Reach-LocksMatch start = record { locked = λ m. refl; distinct = tt }
  Reach-LocksMatch (later r t) = Step-LocksMatch t (Reach-LocksMatch r)
