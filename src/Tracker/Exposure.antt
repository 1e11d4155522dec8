-- ===== src/Tracker/Exposure.antt =====
-- How adding and closing positions moves the total exposure.
use edgelord.Common.{
  ◌≡◌, refl, sym, ◌∙◌, true, false, List, [], ◌∷◌, ◌++◌, Option, none, some, if◌then◌else◌, nat_beq,
  filter, Bool-cases, Option-cases, ◌⊎◌, inl, inr,
}
use mathlib.Core.Option.{some-injective}
use edgelord.Money.{Decimal, IsExact, ◌⊕◌, sum-cons, nought_⊕, nought_parts, money, ext}
use edgelord.Domain.Id.{PositionId}
use edgelord.Domain.Position
use edgelord.Domain.Position.{Position, is_open, status_is_closed}
use edgelord.Tracker.Defs.{Tracker, add, get, close, close_first, total_exposure}

module _ {D : Type 0} ⦃d : Decimal D⦄ ⦃x : IsExact D⦄ where
  -- What a position counts for.
  abbrev pub exposure_of : Position D → D
  exposure_of p = if is_open p then p.entry_cost else d.nought

  pub total_exposure-cons :
      (p : Position D) (ps : List (Position D))
      → total_exposure (p ∷ ps) ≡ exposure_of p ⊕ total_exposure ps
  unfolding total_exposure filter
  total_exposure-cons p ps = elim (Bool-cases (is_open p)) [
    | inl e ↦ rw e (sum-cons p.entry_cost _)
    | inr e ↦ rw e (sym (nought_⊕ _))
  ]

  pub total_exposure-append :
      (ps : List (Position D)) (p : Position D)
      → total_exposure (ps ++ (p ∷ [])) ≡ exposure_of p ⊕ total_exposure ps
  total_exposure-append [] p = total_exposure-cons p []
  total_exposure-append (q ∷ ps) p =
      rw
        (
          total_exposure-cons q (ps ++ (p ∷ [])),
          total_exposure-append ps p,
          total_exposure-cons q ps,
        )
        (ext _ _ (omega money))

  -- Adding a position raises the exposure by its entry cost if it is open, and by nothing if it is
  -- a partial fill or closed.
  pub total_exposure-add :
      (t : Tracker D) (p : Position D)
      → total_exposure (add t p).positions ≡ exposure_of p ⊕ total_exposure t.positions
  unfolding add
  total_exposure-add t p = total_exposure-append t.positions p

  pub total_exposure-close_first :
      (id : PositionId) (pnl : D) (ps : List (Position D)) (p : Position D)
      → get id ps ≡ some p
      → total_exposure ps ≡ exposure_of p ⊕ total_exposure (close_first id pnl ps)
  unfolding get close_first
  total_exposure-close_first id pnl [] p e = cc
  total_exposure-close_first id pnl (q ∷ ps) p e = elim (Bool-cases (nat_beq q.id id)) [
    | inl same ↦
        let here : some q ≡ some p = rw same at e in
        rw
          (
            same,
            ← some-injective _ _ here,
            total_exposure-cons q ps,
            total_exposure-cons (Position.close q pnl) ps,
          )
          (ext _ _ (omega (money, nought_parts D)))
    | inr other ↦
        let later : get id ps ≡ some p = rw other at e in
        rw
          (
            other,
            total_exposure-cons q ps,
            total_exposure-cons q (close_first id pnl ps),
            total_exposure-close_first id pnl ps p later,
          )
          (ext _ _ (omega money))
  ]

  closed_same :
      {o : Option (Position D)} (p q : Position D)
      → o ≡ some p
      → o ≡ some q
      → status_is_closed p.status ≡ true
      → status_is_closed q.status ≡ true
  closed_same p q e h c = rw (some-injective q p (sym h ∙ e)) c

  -- Closing succeeds exactly for a position that is there and not closed. It then lowers the
  -- exposure by what the position counted for, and a refused call changes nothing.
  pub total_exposure-close :
      (t : Tracker D) (id : PositionId) (pnl : D)
      → (((p : Position D) → get id t.positions ≡ some p → status_is_closed p.status ≡ true)
          × ((close t id pnl).1 ≡ none)
          × ((close t id pnl).0 ≡ t))
        ⊎ ((p : Position D) × (get id t.positions ≡ some p)
            × (status_is_closed p.status ≡ false)
            × ((close t id pnl).1 ≡ some pnl)
            × (total_exposure t.positions
                ≡ exposure_of p ⊕ total_exposure (close t id pnl).0.positions))
  unfolding close
  total_exposure-close t id pnl = elim (Option-cases (get id t.positions)) [
    | inl e ↦ rw (e, close) (inl ((λ p h. cc), refl, refl))
    | inr (p, e) ↦ elim (Bool-cases (status_is_closed p.status)) [
      | inl c ↦ inl ((λ q h. closed_same p q e h c), rw (e, c, close), rw (e, c, close))
      | inr c ↦ inr (
        p,
        e,
        c,
        rw (e, close, c),
        rw (e, close, c) (total_exposure-close_first id pnl t.positions p e),
      )
    ]
  ]
