-- ===== src/System/Budget.antt =====
-- What is bought and reserved stays within the limit on the total exposure.
use edgelord.Common.{◌≡◌, ◌≢◌, refl, sym, ap, subst, ◌∙◌, List, [], ◌∷◌, ◌++◌, arith, filter}
use edgelord.Money.{
  Decimal, IsExact, max, max_bounds, ≼_refl, ≼_trans, ◌⊕◌, ◌≼◌, sum, sum_from, nought_⊕,
  nought_parts, money, ≼_parts, parts_≼,
}
use edgelord.Domain.Opportunity.{Opportunity}
use edgelord.Tracker.{total_exposure}
use edgelord.State.{
  AppState, RiskLimits, RiskLimitKind, exposure, try_lock_execution, release_execution,
  set_risk_limit, activate_circuit_breaker, reset_circuit_breaker, new,
}
use edgelord.Risk.{amount_of}
use edgelord.System.Settling.{AreWorth, Lowers-close_all_for_market}
use edgelord.System.Balance.{Balanced-Move}
use edgelord.System.Steps.{
  System, Flight, Phase, flight, Reach, Step, locked, reserved, recorded, released, Move, lock,
  move, unlock, settle, set_limit, trip, reset, start, later,
}
use edgelord.System.Weights.{
  held, unrecorded, total, AreNonneg, total-append-cons, total_bounds, AreNonneg-middle,
  AreNonneg-put,
}

module _ {D : Type 0} ⦃d : Decimal D⦄ ⦃x : IsExact D⦄ where
  pub record IsWithinBudget (cap : D) (s : System D) : Type 0 where
    pub nonneg : AreNonneg s.flights
    pub worth : AreWorth s.state.positions.positions
    pub pending : s.state.pending_exposure ≡ total held s.flights
    pub within : (exposure s.state ⊕ total unrecorded s.flights) ≼ cap

  IsWithinBudget-move :
      (cap : D) {s : System D} (before after : List (Flight D)) (o : Opportunity D) {p q : Phase}
      {t : AppState D}
      → s.flights ≡ before ++ (flight o p ∷ after)
      → Move s.state o p t q
      → s.state.risk_limits.max_total_exposure ≼ cap
      → IsWithinBudget cap s
      → IsWithinBudget cap (record { state = t; flights = before ++ (flight o q ∷ after) })
  IsWithinBudget-move cap {s} before after o {p = p} {q = q} {t = t} e mv fits v =
      let (n, ns) = AreNonneg-middle before after (flight o p) (subst AreNonneg e v.nonneg) in
      let (low, high) = total_bounds (before ++ after) ns in
      let split : (g : Phase → D → D)
          → total g s.flights ≡ g p (amount_of o) ⊕ total g (before ++ after) =
        λ g. ap (total g) e ∙ total-append-cons g before after (flight o p) in
      let (worth, pending, within) =
        Balanced-Move cap (total held (before ++ after)) (total unrecorded (before ++ after)) mv
          fits n low high
          (
            v.worth,
            v.pending ∙ split held,
            subst (λ u. (exposure s.state ⊕ u) ≼ cap) (split unrecorded) v.within,
          ) in
      record {
        nonneg = AreNonneg-put before after (flight o q) n ns;
        worth = worth;
        pending = pending ∙ sym (total-append-cons held before after (flight o q));
        within =
            subst (λ u. (exposure t ⊕ u) ≼ cap)
              (sym (total-append-cons unrecorded before after (flight o q))) within;
      }

  -- A flight that holds nothing weighs nothing.
  weightless :
      (p : Phase)
      → p ≢ reserved
      → p ≢ recorded
      → (a : D) → (held p a ≡ d.nought) × (unrecorded p a ≡ d.nought)
  weightless locked n n' a = (refl, refl)
  weightless reserved n n' a = absurd (n refl)
  weightless recorded n n' a = absurd (n' refl)
  weightless released n n' a = (refl, refl)

  set_risk_limit_rest :
      (kind : RiskLimitKind) (v : D) (s : AppState D)
      → ((set_risk_limit kind v s).0.pending_exposure ≡ s.pending_exposure)
        × ((set_risk_limit kind v s).0.positions ≡ s.positions)
  unfolding set_risk_limit
  set_risk_limit_rest kind v s = ground arith

  Step-IsWithinBudget :
      (cap : D) {s t : System D}
      → Step s t
      → s.state.risk_limits.max_total_exposure ≼ cap
      → IsWithinBudget cap s
      → IsWithinBudget cap t
  unfolding try_lock_execution release_execution activate_circuit_breaker reset_circuit_breaker sum
  Step-IsWithinBudget cap {s} (lock o n h) f v = record {
    nonneg = (n, v.nonneg);
    worth = v.worth;
    pending = v.pending ∙ sym (total-append-cons held [] s.flights (flight o locked) ∙ nought_⊕ _);
    within =
        subst (λ u. (exposure s.state ⊕ u) ≼ cap)
          (sym (total-append-cons unrecorded [] s.flights (flight o locked) ∙ nought_⊕ _)) v.within;
  }
  Step-IsWithinBudget cap (move before after o e mv) f v =
      IsWithinBudget-move cap before after o e mv f v
  Step-IsWithinBudget cap {s} (unlock before after o p e n n') f v =
      let (none_held, none_unrecorded) = weightless p n n' (amount_of o) in
      let split : (g : Phase → D → D)
          → g p (amount_of o) ≡ d.nought
          → total g s.flights ≡ total g (before ++ after) =
        λ g z.
          ap (total g) e
          ∙ total-append-cons g before after (flight o p)
          ∙ ap (λ a. a ⊕ total g (before ++ after)) z
          ∙ nought_⊕ _ in
      record {
        nonneg = (AreNonneg-middle before after (flight o p) (subst AreNonneg e v.nonneg)).1;
        worth = v.worth;
        pending = v.pending ∙ split held none_held;
        within =
            subst (λ u. (exposure s.state ⊕ u) ≼ cap) (split unrecorded none_unrecorded) v.within;
      }
  Step-IsWithinBudget cap {s} (settle show pnl_of reason m) f v =
      let (worth, lower) =
        Lowers-close_all_for_market show pnl_of reason s.state.positions m v.worth in
      record {
        nonneg = v.nonneg;
        worth = worth;
        pending = v.pending;
        within = parts_≼ {D = D} _ _ (omega (money, ≼_parts {D = D}, lower, v.within));
      }
  Step-IsWithinBudget cap {s} (set_limit kind y) f v =
      let (same, same') = set_risk_limit_rest kind y s.state in
      record {
        nonneg = v.nonneg;
        worth = rw same' v.worth;
        pending = rw same v.pending;
        within = rw same' v.within;
      }
  Step-IsWithinBudget cap (trip reason) f v = record {
    nonneg = v.nonneg;
    worth = v.worth;
    pending = v.pending;
    within = v.within;
  }
  Step-IsWithinBudget cap reset f v = record {
    nonneg = v.nonneg;
    worth = v.worth;
    pending = v.pending;
    within = v.within;
  }

  -- The highest limit on the total exposure that has been in force in a run.
  abbrev pub highest_limit : {limits : RiskLimits D} {s : System D} → Reach limits s → D
  highest_limit {limits} start = limits.max_total_exposure
  highest_limit (later {t = t} r step) =
      max (highest_limit r) t.state.risk_limits.max_total_exposure

  highest_limit-current :
      {limits : RiskLimits D} {s : System D} (r : Reach limits s)
      → s.state.risk_limits.max_total_exposure ≼ highest_limit r
  unfolding new
  highest_limit-current {limits} start = ≼_refl limits.max_total_exposure
  highest_limit-current (later {t = t} r step) =
      let m = t.state.risk_limits.max_total_exposure in
      (max_bounds (highest_limit r) m (max (highest_limit r) m) (≼_refl {D = D} _)).1

  IsWithinBudget-raise :
      {cap higher : D} {s : System D}
      → cap ≼ higher
      → IsWithinBudget cap s
      → IsWithinBudget higher s
  IsWithinBudget-raise {cap} {higher} {s} h v = record {
    nonneg = v.nonneg;
    worth = v.worth;
    pending = v.pending;
    within = ≼_trans (exposure s.state ⊕ total unrecorded s.flights) cap higher v.within h;
  }

  Reach-IsWithinBudget :
      {limits : RiskLimits D} {s : System D}
      → d.nought ≼ limits.max_total_exposure
      → (r : Reach limits s) → IsWithinBudget (highest_limit r) s
  unfolding new sum sum_from total_exposure filter
  Reach-IsWithinBudget {limits} h start = record {
    nonneg = tt;
    worth = tt;
    pending = refl;
    within = subst (λ a. a ≼ limits.max_total_exposure) (sym (nought_⊕ d.nought)) h;
  }
  Reach-IsWithinBudget h (later {t = t} r step) =
      let m = t.state.risk_limits.max_total_exposure in
      let grown = (max_bounds (highest_limit r) m (max (highest_limit r) m) (≼_refl {D = D} _)).0 in
      IsWithinBudget-raise grown (
        Step-IsWithinBudget (highest_limit r) step (highest_limit-current r)
          (Reach-IsWithinBudget h r))

  -- However the event loop, the execution tasks, settlements and the operator interleave, also where
  -- the operator changes the limits, the pending exposure is the cost of the flights that hold a
  -- reservation, and the exposure of the open positions never exceeds the highest limit that has been
  -- in force, when no opportunity costs less than nothing and the first limit is not negative.
  pub Reach-exposure_within :
      {limits : RiskLimits D} {s : System D}
      → d.nought ≼ limits.max_total_exposure
      → (r : Reach limits s)
      → (s.state.pending_exposure ≡ total held s.flights) × (exposure s.state ≼ highest_limit r)
  Reach-exposure_within {s = s} h r =
      let v = Reach-IsWithinBudget h r in
      let (low, high) = total_bounds s.flights v.nonneg in
      (
        v.pending,
        parts_≼ {D = D} _ _ (omega (money, nought_parts D, ≼_parts {D = D}, low, v.within)),
      )
