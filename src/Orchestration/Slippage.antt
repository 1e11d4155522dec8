-- ===== src/Orchestration/Slippage.antt =====
-- src/application/orchestration/slippage.rs: how far the asks have moved since detection.
use edgelord.Common.{
  ◌≡◌, Bool, List, [], ◌∷◌, Option, none, some, if◌then◌else◌, ◌&&◌, arith, Option-cases, inl, inr,
  ◌>>=◌, All,
}
use mathlib.Core.Option.{some-injective}
use edgelord.Money.{Decimal, IsExact, ◌⊖◌, ◌⊘◌, ◌≤?◌, ◌≼◌, max, abs, ≼_refl, max_bounds}
use edgelord.Domain.Book.{best_ask}
use edgelord.Domain.Opportunity.{Opportunity, OpportunityLeg}
use edgelord.Cache.Books.{BookCache, get}

module _ {D : Type 0} ⦃d : Decimal D⦄ where
  -- `a == b` on decimals, which are `Ord`.
  abbrev pub ◌=?◌ : D → D → Bool
  ◌=?◌ a b = (a ≤? b) && (b ≤? a)

  abbrev slippage_of : D → D → Option D
  slippage_of expected current =
      if ◌=?◌ expected d.nought then none else some (abs (current ⊖ expected) ⊘ expected)

  -- The slippage of one leg: the relative distance of the best ask from the expected price.
  unfoldable pub leg_slippage : BookCache D → OpportunityLeg D → Option D
  leg_slippage cache leg = do
    book ← get leg.token_id cache
    level ← best_ask book
    slippage_of leg.ask_price level.price

  -- The loop of `get_max_slippage`, with `max_slippage` so far.
  unfoldable pub max_slippage_from : BookCache D → D → List (OpportunityLeg D) → Option D
  max_slippage_from cache acc [] = some acc
  max_slippage_from cache acc (leg ∷ legs) = elim (leg_slippage cache leg) [
    | none ↦ none
    | some s ↦ max_slippage_from cache (max acc s) legs
  ]

  unfoldable pub get_max_slippage : Opportunity D → BookCache D → Option D
  unfolding max_slippage_from
  get_max_slippage o cache = max_slippage_from cache d.nought o.legs

module _ {D : Type 0} ⦃d : Decimal D⦄ ⦃x : IsExact D⦄ (cache : BookCache D) where
  -- The leg has a slippage, which is at most `top`.
  abbrev pub WithinBy : D → OpportunityLeg D → Type 0
  WithinBy top leg = (s : D) × (leg_slippage cache leg ≡ some s) × (s ≼ top)

  max_slippage_from_bounds :
      (legs : List (OpportunityLeg D)) (acc : D) {top : D}
      → max_slippage_from cache acc legs ≡ some top
      → (acc ≼ top) × All (WithinBy top) legs
  unfolding max_slippage_from
  max_slippage_from_bounds [] acc {top} h = (rw (some-injective _ _ h) (≼_refl top), tt)
  max_slippage_from_bounds (leg ∷ legs) acc {top} h = elim (Option-cases (leg_slippage cache leg)) [
    | inl e ↦ cc (rw (e, max_slippage_from) at h)
    | inr (s, e) ↦
        let rest : max_slippage_from cache (max acc s) legs ≡ some top = ground arith in
        let (bound, others) = max_slippage_from_bounds legs (max acc s) rest in
        let (low, high) = max_bounds acc s top bound in (low, ((s, e, high), others))
  ]

  -- If `get_max_slippage` gives a value, then it is not negative, every leg has a book with an ask,
  -- and the slippage of no leg exceeds it.
  pub get_max_slippage_bounds :
      (o : Opportunity D) {top : D}
      → get_max_slippage o cache ≡ some top
      → (d.nought ≼ top) × All (WithinBy top) o.legs
  unfolding get_max_slippage
  get_max_slippage_bounds o h = max_slippage_from_bounds o.legs d.nought h
