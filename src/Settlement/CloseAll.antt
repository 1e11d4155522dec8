-- ===== src/Settlement/CloseAll.antt =====
-- The loop of `close_all_for_market` against what it is to do: each open position of the market is
-- closed with its own profit, and nothing else is touched.
use edgelord.Common.{
  ℕ, ◌≡◌, refl, ap, sym, ◌∙◌, ◌==◌, Bool, none, some, not, true, false, List, [], ◌∷◌, ◌++◌, map,
  String, Option, if◌then◌else◌, string_eq, filter, nat_beq, arith, Bool-cases, Option-cases, inl,
  inr, All,
}
use mathlib.Core.List.{append-nil, append_assoc}
use edgelord.Money.{Decimal, ◌⊕◌, sum, sum_from}
use edgelord.Domain.Id.{PositionId, MarketId}
use edgelord.Domain.Position
use edgelord.Domain.Position.{
  Position, PositionStatus, opened, partial_fill, closed, status_is_closed,
}
use edgelord.Tracker.{Tracker, get, close, close_first}
use edgelord.Settlement.Defs.{
  CloseReason, TradeCloseEvent, Progress, is_target, targets, close_position, close_one, close_each,
  close_all_for_market, recorded, reason_text,
}

-- No two positions share an identifier.
abbrev pub Differ : {D : Type 0} → PositionId → List (Position D) → Type 0
Differ id = All (λ p. nat_beq p.id id ≡ false)

abbrev pub AreDistinct : {D : Type 0} → List (Position D) → Type 0
AreDistinct [] = Unit
AreDistinct (p ∷ ps) = Differ p.id ps × AreDistinct ps

module _ {D : Type 0} where
  -- A status that is not final.
  abbrev is_live : PositionStatus D → Bool
  is_live opened = true
  is_live (partial_fill filled missing) = true
  is_live (closed pnl) = false

  -- A position of the market that settlement is to close.
  abbrev pub is_open_on : MarketId → Position D → Bool
  is_open_on m p = if p.market_id == m then is_live p.status else false

  is_target_lem : (m : MarketId) (p : Position D) → is_target m p ≡ is_open_on m p
  is_target_lem m p = elim (Bool-cases (p.market_id == m)) [
    | inl e ↦ rw e (live p.status)
    | inr e ↦ rw e refl
  ]
    where
      live : (s : PositionStatus D) → not (status_is_closed s) ≡ is_live s
      live opened = refl
      live (partial_fill filled missing) = refl
      live (closed pnl) = refl

module _ {D : Type 0} (m : MarketId) (pnl_of : Position D → D) where
  -- What settlement is to do to one position.
  abbrev pub settled : Position D → Position D
  settled p = if is_open_on m p then record p { status = closed (pnl_of p) } else p

module _ {D : Type 0} ⦃d : Decimal D⦄ (show : D → String) (pnl_of : Position D → D)
    (reason : CloseReason D) where
  abbrev push : Position D → Progress D → Progress D
  push p w = record w { tracker = record w.tracker { positions = p ∷ w.tracker.positions } }

  -- A position with another identifier, in front, is passed over.
  close_one-push :
      (p : Position D) (i : PositionId × Option ℕ) (w : Progress D)
      → nat_beq p.id i.0 ≡ false
      → close_one show pnl_of reason i (push p w) ≡ push p (close_one show pnl_of reason i w)
  unfolding close_one close_position get close close_first
  close_one-push p (id, trade) w h = elim (Option-cases (get id w.tracker.positions)) [
    | inl e ↦ ground arith
    | inr (q, e) ↦ ground arith
  ]

  close_each-push :
      (p : Position D) (is : List (PositionId × Option ℕ)) (w : Progress D)
      → All (λ i. nat_beq p.id i.0 ≡ false) is
      → close_each show pnl_of reason is (push p w) ≡ push p (close_each show pnl_of reason is w)
  unfolding close_each
  close_each-push p [] w h = refl
  close_each-push p (i ∷ is) w h = rw (close_one-push p i w h.0) (close_each-push p is _ h.1)

  targets-Differ :
      (m : MarketId) (id : PositionId) (ps : List (Position D))
      → Differ id ps
      → All (λ i. nat_beq id i.0 ≡ false) (targets m ps)
  unfolding targets filter
  targets-Differ m id [] h = tt
  targets-Differ m id (p ∷ ps) h = ground (arith, targets-Differ m id ps h.1)

  close_one_first :
      (p : Position D) (ps : List (Position D)) (w : Progress D)
      → status_is_closed p.status ≡ false
      → close_one show pnl_of reason
          (p.id, p.trade_id)
          (record w { tracker = record w.tracker { positions = p ∷ ps } })
        ≡ record {
          tracker = record w.tracker { positions = Position.close p (pnl_of p) ∷ ps };
          events = w.events ++ recorded show p.trade_id (pnl_of p) reason;
          total_pnl = w.total_pnl ⊕ pnl_of p;
        }
  unfolding close_one close_position get close close_first
  close_one_first p ps w h = ground arith

  targets_hit :
      (m : MarketId) (p : Position D) (ps : List (Position D))
      → is_target m p ≡ true
      → targets m (p ∷ ps) ≡ (p.id, p.trade_id) ∷ targets m ps
  unfolding targets filter
  targets_hit m p ps e = rw e

  -- The event of a position that has a trade.
  abbrev closing : Option ℕ → D → List (TradeCloseEvent D)
  closing none pnl = []
  closing (some t) pnl =
      record { trade_id = t; realized_profit = pnl; reason = reason_text show reason } ∷ []

  recorded_lem :
      (trade_id : Option ℕ) (pnl : D) → recorded show trade_id pnl reason ≡ closing trade_id pnl
  recorded_lem none pnl = refl
  recorded_lem (some t) pnl = refl

  -- The events that settling is to record.
  abbrev pub closings : MarketId → List (Position D) → List (TradeCloseEvent D)
  closings m [] = []
  closings m (p ∷ ps) =
      if is_open_on m p then closing p.trade_id (pnl_of p) ++ closings m ps else closings m ps

  close_each-targets :
      (m : MarketId) (ps : List (Position D)) (w : Progress D)
      → AreDistinct ps
      → close_each show pnl_of reason
          (targets m ps)
          (record w { tracker = record w.tracker { positions = ps } })
        ≡ record {
          tracker = record w.tracker { positions = map (settled m pnl_of) ps };
          events = w.events ++ closings m ps;
          total_pnl = sum_from w.total_pnl (map pnl_of (filter (is_open_on m) ps));
        }
  unfolding close_each targets filter sum_from
  close_each-targets m [] w h = rw (append-nil w.events)
  close_each-targets m (p ∷ ps) w h = elim (Bool-cases (is_target m p)) [
    | inl e ↦
        let e' : is_open_on m p ≡ true = sym (is_target_lem m p) ∙ e in
        let w' : Progress D = record {
          tracker = record w.tracker { positions = ps };
          events = w.events ++ recorded show p.trade_id (pnl_of p) reason;
          total_pnl = w.total_pnl ⊕ pnl_of p;
        } in
        ap
          (λ is.
            close_each show pnl_of reason is
              (push p (record w { tracker = record w.tracker { positions = ps } })))
          (targets_hit m p ps e)
        ∙ ap (close_each show pnl_of reason (targets m ps)) (close_one_first p ps w (ground arith))
        ∙ close_each-push (Position.close p (pnl_of p)) (targets m ps) w'
            (targets-Differ m p.id ps h.0)
        ∙ ap (push (Position.close p (pnl_of p))) (close_each-targets m ps w' h.1)
        ∙ rw (e', recorded_lem p.trade_id (pnl_of p), append_assoc w.events)
    | inr e ↦
        let e' : is_open_on m p ≡ false = sym (is_target_lem m p) ∙ e in
        rw (e, e', targets, filter)
          (close_each-push p (targets m ps)
              (record w { tracker = record w.tracker { positions = ps } })
              (targets-Differ m p.id ps h.0)
            ∙ ap (push p) (close_each-targets m ps w h.1))
  ]

  -- When identifiers are distinct, settling a market closes each of its positions that is not closed,
  -- in place, with the profit computed for it, leaves every other position as it is, records one
  -- event for each closed position that has a trade, in order, and returns the sum of the profits.
  pub close_all_for_market_lem :
      (t : Tracker D) (m : MarketId)
      → AreDistinct t.positions
      → close_all_for_market show pnl_of reason t m ≡ record {
        tracker = record t { positions = map (settled m pnl_of) t.positions };
        events = closings m t.positions;
        total_pnl = sum (map pnl_of (filter (is_open_on m) t.positions));
      }
  unfolding close_all_for_market sum
  close_all_for_market_lem t m h =
      close_each-targets m t.positions (record { tracker = t; events = []; total_pnl = d.nought }) h
