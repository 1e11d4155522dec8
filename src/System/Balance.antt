-- ===== src/System/Balance.antt =====
-- One flight moves on: what it holds and what the open positions count for stay in balance.
use edgelord.Common.{
  ℕ, ◌≡◌, refl, ap, ◌∙◌, List, [], ◌∷◌, ◌++◌, Option, none, some, All-append, inl, inr,
}
use edgelord.Money.{
  Decimal, IsExact, ◌⊕◌, ◌≼◌, nought_parts, money, ext, ≼_parts, ≡_parts, parts_≼, ≼_refl, ≼_trans,
}
use edgelord.Domain.Id.{PositionId, Time}
use edgelord.Domain.Position.{Position}
use edgelord.Domain.Opportunity.{Opportunity}
use edgelord.Tracker.Exposure.{exposure_of, total_exposure-append}
use edgelord.State.{AppState, exposure, release_exposure}
use edgelord.State.Reservation.{release_exposure_lem}
use edgelord.Domain.Trade.{Fill, Failure}
use edgelord.Orchestration.Record.{
  record_position, record_partial_position, full_position, partial_position,
}
use edgelord.Risk.{amount_of, check, approved}
use edgelord.Risk.Check.{check-approved_iff, check_effect}
use edgelord.System.Settling.{AreWorth}
use edgelord.System.Steps.{
  Phase, locked, reserved, recorded, released, Move, record_full, record_partial, give_back,
  settle_up,
}
use edgelord.System.Weights.{held, unrecorded}

module _ {D : Type 0} ⦃d : Decimal D⦄ ⦃x : IsExact D⦄ (cap : D) where
  -- The invariant with one flight singled out: the others hold `h`, of which `u` is not recorded. The
  -- bound `cap` is no less than the limit in force.
  abbrev pub Balanced : AppState D → Phase → D → D → D → Type 0
  Balanced s p a h u =
      AreWorth s.positions.positions
      × (s.pending_exposure ≡ held p a ⊕ h)
      × ((exposure s ⊕ (unrecorded p a ⊕ u)) ≼ cap)

  Balanced-reserve :
      (s : AppState D) (o : Opportunity D) (h u : D)
      → (check o s).1 ≡ approved
      → s.risk_limits.max_total_exposure ≼ cap
      → u ≼ h
      → Balanced s locked (amount_of o) h u
      → Balanced (check o s).0 reserved (amount_of o) h u
  Balanced-reserve s o h u ok fits uh (w, pe, b) = elim (check_effect o s) [
    | inr (refused, same) ↦ absurd (refused ok)
    | inl (accepted, same) ↦
        let (off, profit, market, room) = (check-approved_iff o s).0 ok in
        rw same (
          w,
          ext _ _ (omega (money, nought_parts D, ≡_parts _ _ pe)),
          parts_≼ {D = D} _ _
              (omega (money, nought_parts D, ≼_parts {D = D}, uh, room, fits, ≡_parts _ _ pe)),
        )
  ]

  exposure_of-full_position :
      (now : Time) (id : PositionId) (o : Opportunity D) (trade_id : Option ℕ)
      → exposure_of (full_position now id o trade_id) ≡ amount_of o
  unfolding amount_of
  exposure_of-full_position now id o none = refl
  exposure_of-full_position now id o (some t) = refl

  AreWorth-append :
      (ps : List (Position D)) (p : Position D)
      → AreWorth ps
      → d.nought ≼ exposure_of p
      → AreWorth (ps ++ (p ∷ []))
  AreWorth-append ps p w h = All-append (λ p. d.nought ≼ exposure_of p) ps (p ∷ []) w (h, tt)

  Balanced-record :
      (now : Time) (trade_id : Option ℕ) (s : AppState D) (o : Opportunity D) (h u : D)
      → d.nought ≼ amount_of o
      → Balanced s reserved (amount_of o) h u
      → Balanced (record_position now o trade_id s) recorded (amount_of o) h u
  unfolding record_position
  Balanced-record now trade_id s o h u n (w, pe, b) =
      let p : Position D = full_position now s.positions.next_id_field o trade_id in
      let worth : exposure_of p ≡ amount_of o =
        exposure_of-full_position now s.positions.next_id_field o trade_id in
      (
        AreWorth-append s.positions.positions p w (rw worth n),
        pe,
        rw (total_exposure-append s.positions.positions p, worth)
            (parts_≼ {D = D} _ _ (omega (money, nought_parts D, ≼_parts {D = D}, b))),
      )

  Balanced-record_partial :
      (now : Time) (fills : List Fill) (failures : List Failure) (s : AppState D)
      (o : Opportunity D) (h u : D)
      → Balanced s reserved (amount_of o) h u
      → Balanced (record_partial_position now o fills failures none s) reserved (amount_of o) h u
  unfolding record_partial_position
  Balanced-record_partial now fills failures s o h u (w, pe, b) =
      let p : Position D = partial_position now s.positions.next_id_field o fills failures none in
      (
        AreWorth-append s.positions.positions p w (≼_refl d.nought),
        pe,
        rw (total_exposure-append s.positions.positions p)
            (parts_≼ {D = D} _ _ (omega (money, nought_parts D, ≼_parts {D = D}, b))),
      )

  Balanced-release :
      (p : Phase) (s : AppState D) (o : Opportunity D) (h u : D)
      → held p (amount_of o) ≡ amount_of o
      → d.nought ≼ amount_of o
      → d.nought ≼ unrecorded p (amount_of o)
      → d.nought ≼ h
      → Balanced s p (amount_of o) h u
      → Balanced (release_exposure (amount_of o) s) released (amount_of o) h u
  Balanced-release p s o h u e n n' nh (w, pe, b) =
      let holds : s.pending_exposure ≡ amount_of o ⊕ h = pe ∙ ap (λ b. b ⊕ h) e in
      let most : amount_of o ≼ s.pending_exposure =
        rw holds (parts_≼ {D = D} _ _ (omega (money, nought_parts D, ≼_parts {D = D}, nh))) in
      rw (release_exposure_lem (amount_of o) s most) (
        w,
        ext _ _ (omega (money, nought_parts D, ≡_parts _ _ holds)),
        parts_≼ {D = D} _ _ (omega (money, nought_parts D, ≼_parts {D = D}, b, n')),
      )

  pub Balanced-Move :
      {s : AppState D} {o : Opportunity D} {p : Phase} {t : AppState D} {q : Phase} (h u : D)
      → Move s o p t q
      → s.risk_limits.max_total_exposure ≼ cap
      → d.nought ≼ amount_of o
      → d.nought ≼ u
      → u ≼ h
      → Balanced s p (amount_of o) h u
      → Balanced t q (amount_of o) h u
  Balanced-Move {s} {o} h u (Move.reserve ok) f n nu uh v = Balanced-reserve s o h u ok f uh v
  Balanced-Move {s} {o} h u (record_full now trade_id) f n nu uh v =
      Balanced-record now trade_id s o h u n v
  Balanced-Move {s} {o} h u (record_partial now fills failures) f n nu uh v =
      Balanced-record_partial now fills failures s o h u v
  Balanced-Move {s} {o} h u give_back f n nu uh v =
      Balanced-release reserved s o h u refl n n (≼_trans d.nought u h nu uh) v
  Balanced-Move {s} {o} h u settle_up f n nu uh v =
      Balanced-release recorded s o h u refl n (≼_refl d.nought) (≼_trans d.nought u h nu uh) v
