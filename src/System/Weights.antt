-- ===== src/System/Weights.antt =====
-- What the flights weigh, in each phase.
use edgelord.Common.{◌≡◌, List, [], ◌∷◌, ◌++◌, map, All}
use edgelord.Money.{
  Decimal, IsExact, ◌⊕◌, ◌≼◌, sum, sum-cons, nought_parts, money, ext, ≼_parts, parts_≼, ≼_refl,
}
use edgelord.Risk.{amount_of}
use edgelord.System.Steps.{Flight, Phase, locked, reserved, recorded, released}

module _ {D : Type 0} ⦃d : Decimal D⦄ where
  -- What a flight holds of the pending exposure.
  abbrev pub held : Phase → D → D
  held locked a = d.nought
  held reserved a = a
  held recorded a = a
  held released a = d.nought

  -- What of it is not in the open positions yet.
  abbrev pub unrecorded : Phase → D → D
  unrecorded locked a = d.nought
  unrecorded reserved a = a
  unrecorded recorded a = d.nought
  unrecorded released a = d.nought

  abbrev pub total : (Phase → D → D) → List (Flight D) → D
  total g fs = sum (map (λ f. g f.phase (amount_of f.opportunity)) fs)

  abbrev pub AreNonneg : List (Flight D) → Type 0
  AreNonneg = All (λ f. d.nought ≼ amount_of f.opportunity)

module _ {D : Type 0} ⦃d : Decimal D⦄ ⦃x : IsExact D⦄ where
  -- A flight in the middle weighs like one in front.
  pub total-append-cons :
      (g : Phase → D → D) (before after : List (Flight D)) (f : Flight D)
      → total g (before ++ (f ∷ after))
        ≡ g f.phase (amount_of f.opportunity) ⊕ total g (before ++ after)
  total-append-cons g [] after f = sum-cons _ _
  total-append-cons g (b ∷ before) after f =
      rw
        (
          sum-cons (g b.phase (amount_of b.opportunity))
              (map (λ f. g f.phase (amount_of f.opportunity)) (before ++ (f ∷ after))),
          sum-cons (g b.phase (amount_of b.opportunity))
              (map (λ f. g f.phase (amount_of f.opportunity)) (before ++ after)),
          total-append-cons g before after f,
        )
        (ext _ _ (omega money))

  unrecorded_held : (p : Phase) (a : D) → d.nought ≼ a → unrecorded p a ≼ held p a
  unrecorded_held locked a h = ≼_refl d.nought
  unrecorded_held reserved a h = ≼_refl a
  unrecorded_held recorded a h = h
  unrecorded_held released a h = ≼_refl d.nought

  unrecorded_nonneg : (p : Phase) (a : D) → d.nought ≼ a → d.nought ≼ unrecorded p a
  unrecorded_nonneg locked a h = ≼_refl d.nought
  unrecorded_nonneg reserved a h = h
  unrecorded_nonneg recorded a h = ≼_refl d.nought
  unrecorded_nonneg released a h = ≼_refl d.nought

  pub total_bounds :
      (fs : List (Flight D))
      → AreNonneg fs
      → (d.nought ≼ total unrecorded fs) × (total unrecorded fs ≼ total held fs)
  unfolding sum
  total_bounds [] h = (≼_refl d.nought, ≼_refl d.nought)
  total_bounds (f ∷ fs) (h, hs) =
      let (low, high) = total_bounds fs hs in
      let a : D = amount_of f.opportunity in
      rw
        (
          sum-cons (unrecorded f.phase a)
              (map (λ f. unrecorded f.phase (amount_of f.opportunity)) fs),
          sum-cons (held f.phase a) (map (λ f. held f.phase (amount_of f.opportunity)) fs),
        )
        (
          omega (
            money,
            ≼_parts {D = D},
            parts_≼ {D = D},
            nought_parts D,
            unrecorded_nonneg f.phase a h,
            low,
          ),
          omega (money, ≼_parts {D = D}, parts_≼ {D = D}, unrecorded_held f.phase a h, high),
        )

  pub AreNonneg-middle :
      (before after : List (Flight D)) (f : Flight D)
      → AreNonneg (before ++ (f ∷ after))
      → (d.nought ≼ amount_of f.opportunity) × AreNonneg (before ++ after)
  AreNonneg-middle [] after f h = h
  AreNonneg-middle (b ∷ before) after f (h, hs) =
      let (here, rest) = AreNonneg-middle before after f hs in (here, (h, rest))

  pub AreNonneg-put :
      (before after : List (Flight D)) (f : Flight D)
      → d.nought ≼ amount_of f.opportunity
      → AreNonneg (before ++ after)
      → AreNonneg (before ++ (f ∷ after))
  AreNonneg-put [] after f h hs = (h, hs)
  AreNonneg-put (b ∷ before) after f h (k, ks) = (k, AreNonneg-put before after f h ks)
