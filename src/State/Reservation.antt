-- ===== src/State/Reservation.antt =====
-- Reserving exposure and giving it back.
use edgelord.Common.{◌≡◌, true, arith}
use edgelord.Money.{Decimal, IsExact, ◌⊕◌, ◌⊖◌, ◌≼◌, money, ext, ≼_parts, parts_≼, nought_parts}
use edgelord.State.Defs.{AppState, try_reserve_exposure, release_exposure}

module _ {D : Type 0} ⦃d : Decimal D⦄ ⦃x : IsExact D⦄ where
  ⊕-⊖_cancel : (a b : D) → (a ⊕ b) ⊖ b ≡ a
  ⊕-⊖_cancel a b = ext _ _ (omega money)

  pub release-reserved :
      (amount : D) (s : AppState D)
      → d.nought ≼ s.pending_exposure
      → release_exposure amount (record s { pending_exposure = s.pending_exposure ⊕ amount }) ≡ s
  unfolding release_exposure
  release-reserved amount s n = ground (arith, ⊕-⊖_cancel s.pending_exposure amount)

  -- When what is reserved is not below nothing and a reservation is accepted, releasing it again gives
  -- the state from before.
  pub release-try_reserve :
      (amount : D) (s : AppState D)
      → d.nought ≼ s.pending_exposure
      → (try_reserve_exposure amount s).1 ≡ true
      → release_exposure amount (try_reserve_exposure amount s).0 ≡ s
  unfolding try_reserve_exposure release_exposure
  release-try_reserve amount s n h = ground (arith, ⊕-⊖_cancel s.pending_exposure amount)

  -- A release takes off the amount when at least that much is reserved.
  pub release_exposure_lem :
      (amount : D) (s : AppState D)
      → amount ≼ s.pending_exposure
      → release_exposure amount s ≡ record s { pending_exposure = s.pending_exposure ⊖ amount }
  unfolding release_exposure
  release_exposure_lem amount s h =
      let left : d.nought ≼ (s.pending_exposure ⊖ amount) =
        parts_≼ {D = D} _ _ (omega (money, nought_parts D, ≼_parts amount s.pending_exposure h)) in
      rw left
