-- ===== src/System/Settling.antt =====
-- Settling a market lowers the exposure and leaves no position that counts for less than nothing.
use edgelord.Common.{
  ℕ, ◌≡◌, ◌⊎◌, subst, List, [], ◌∷◌, String, Option, some, arith, nat_beq, All, Bool-cases,
  Option-cases, inl, inr,
}
use mathlib.Core.Option.{some-injective}
use edgelord.Money.{Decimal, IsExact, ◌≼◌, nought_parts, money, ≼_parts, parts_≼, ≼_refl, ≼_trans}
use edgelord.Domain.Id.{PositionId, MarketId}
use edgelord.Domain.Position.{Position}
use edgelord.Tracker.{Tracker, total_exposure, get, close, close_first}
use edgelord.Tracker.Exposure.{exposure_of, total_exposure-close_first}
use edgelord.Settlement.{
  CloseReason, Progress, close_one, close_each, close_position, close_all_for_market,
}

module _ {D : Type 0} ⦃d : Decimal D⦄ ⦃x : IsExact D⦄ where
  abbrev pub AreWorth : List (Position D) → Type 0
  AreWorth = All (λ p. d.nought ≼ exposure_of p)

  AreWorth-close_first :
      (id : PositionId) (pnl : D) (ps : List (Position D))
      → AreWorth ps
      → AreWorth (close_first id pnl ps)
  unfolding close_first
  AreWorth-close_first id pnl [] w = tt
  AreWorth-close_first id pnl (p ∷ ps) (w, ws) = elim (Bool-cases (nat_beq p.id id)) [
    | inl e ↦ rw e (≼_refl d.nought, ws)
    | inr e ↦ rw e (w, AreWorth-close_first id pnl ps ws)
  ]

  get_worth :
      (id : PositionId) (ps : List (Position D)) {p : Position D}
      → AreWorth ps
      → get id ps ≡ some p
      → d.nought ≼ exposure_of p
  unfolding get
  get_worth id [] w e = cc
  get_worth id (q ∷ ps) {p = p} (w, ws) e = elim (Bool-cases (nat_beq q.id id)) [
    | inl same ↦ subst (λ r. d.nought ≼ exposure_of r) (some-injective q p (rw same at e)) w
    | inr other ↦ get_worth id ps ws (rw other at e)
  ]

  -- What closing may do to a tracker.
  abbrev pub Lowers : Tracker D → Tracker D → Type 0
  Lowers t t' = AreWorth t'.positions × (total_exposure t'.positions ≼ total_exposure t.positions)

  Lowers-close_first :
      (id : PositionId) (pnl : D) (t : Tracker D) (p : Position D)
      → AreWorth t.positions
      → get id t.positions ≡ some p
      → Lowers t (record t { positions = close_first id pnl t.positions })
  Lowers-close_first id pnl t p w e = (
    AreWorth-close_first id pnl t.positions w,
    rw (total_exposure-close_first id pnl t.positions p e) (
        parts_≼ {D = D} _ _
          (omega (money, nought_parts D, ≼_parts {D = D}, get_worth id t.positions w e))),
  )

  module _ (show : D → String) (pnl_of : Position D → D) (reason : CloseReason D) where
    close_one_cases :
        (id : PositionId) (trade_id : Option ℕ) (w : Progress D) (p : Position D)
        → get id w.tracker.positions ≡ some p
        → ((close_one show pnl_of reason (id, trade_id) w).tracker ≡ w.tracker)
          ⊎ ((close_one show pnl_of reason (id, trade_id) w).tracker
              ≡ record w.tracker { positions = close_first id (pnl_of p) w.tracker.positions })
    unfolding close_one close_position close
    close_one_cases id trade_id w p e = ground arith

    Lowers-close_one :
        (i : PositionId × Option ℕ) (w : Progress D)
        → AreWorth w.tracker.positions
        → Lowers w.tracker (close_one show pnl_of reason i w).tracker
    unfolding close_one total_exposure
    Lowers-close_one (id, trade_id) w h = elim (Option-cases (get id w.tracker.positions)) [
      | inl e ↦ rw (e, close_one) (h, ≼_refl {D = D} _)
      | inr (p, e) ↦ elim (close_one_cases id trade_id w p e) [
        | inl same ↦ rw same (h, ≼_refl {D = D} _)
        | inr shut ↦ rw shut (Lowers-close_first id (pnl_of p) w.tracker p h e)
      ]
    ]

    pub Lowers-close_each :
        (is : List (PositionId × Option ℕ)) (w : Progress D)
        → AreWorth w.tracker.positions
        → Lowers w.tracker (close_each show pnl_of reason is w).tracker
    unfolding close_each
    Lowers-close_each [] w h = (h, ≼_refl {D = D} _)
    Lowers-close_each (i ∷ is) w h =
        let (h1, down) = Lowers-close_one i w h in
        let (h2, down') = Lowers-close_each is (close_one show pnl_of reason i w) h1 in
        (h2, ≼_trans {D = D} _ _ _ down' down)

    pub Lowers-close_all_for_market :
        (t : Tracker D) (m : MarketId)
        → AreWorth t.positions
        → Lowers t (close_all_for_market show pnl_of reason t m).tracker
    unfolding close_all_for_market
    Lowers-close_all_for_market t m h = Lowers-close_each _ _ h
