-- ===== src/Money/Defs.antt =====
-- The operations of `Decimal`, their notation, and the laws.
use edgelord.Common.{ℕ, ◌≡◌, Bool, true, false, not, List, [], ◌∷◌, if◌then◌else◌}
use edgelord.Common.Int.{ℤ, pos, ◌+ℤ◌, ◌-ℤ◌, ltb_ℤ}

pub record Decimal (D : Type 0) : Type 0 where
  pub nought : D  -- Decimal::ZERO
  pub one : D  -- Decimal::ONE
  pub largest : D  -- Decimal::MAX
  pub scaled : ℕ → ℕ → D  -- Decimal::new(num, scale)
  pub add : D → D → D
  pub sub : D → D → D
  pub mul : D → D → D
  pub div : D → D → D
  pub lt : D → D → Bool

module _ {D : Type 0} ⦃d : Decimal D⦄ where
  infixl 65 ◌⊕◌ ◌⊖◌
  infixl 70 ◌⊗◌ ◌⊘◌
  infix 50 ◌<?◌ ◌≤?◌
  infix 4 ◌≼◌ ◌≺◌
  abbrev pub ◌⊕◌ : D → D → D
  ◌⊕◌ = d.add

  abbrev pub ◌⊖◌ : D → D → D
  ◌⊖◌ = d.sub

  abbrev pub ◌⊗◌ : D → D → D
  ◌⊗◌ = d.mul

  abbrev pub ◌⊘◌ : D → D → D
  ◌⊘◌ = d.div

  -- `a < b`; `Decimal` is `Ord`, so `a <= b` is the failure of `b < a`.
  abbrev pub ◌<?◌ : D → D → Bool
  ◌<?◌ = d.lt

  abbrev pub ◌≤?◌ : D → D → Bool
  a ≤? b = not (d.lt b a)

  abbrev pub ◌≺◌ : D → D → Type 0
  a ≺ b = d.lt a b ≡ true

  abbrev pub ◌≼◌ : D → D → Type 0
  a ≼ b = d.lt b a ≡ false

  -- `Ord::min` and `Ord::max`.
  abbrev pub min : D → D → D
  min a b = if d.lt b a then b else a

  abbrev pub max : D → D → D
  max a b = if d.lt b a then a else b

  abbrev pub abs : D → D
  abs a = if d.lt a d.nought then d.nought ⊖ a else a

  -- `Iterator::sum`, and the fold of `PositionTracker::total_exposure`: additions from the left.
  unfoldable pub sum_from : D → List D → D
  sum_from acc [] = acc
  sum_from acc (x ∷ xs) = sum_from (acc ⊕ x) xs

  unfoldable pub sum : List D → D
  unfolding sum_from
  sum = sum_from d.nought

-- What the documentation of the crate promises of additions, subtractions and comparisons, for the
-- values that fit: they are those of the numbers, here whole multiples of a least unit. Of a
-- product only the sign is used, since products may round.
pub record IsExact (D : Type 0) ⦃d : Decimal D⦄ : Type 0 where
  pub value : D → ℤ
  pub value-nought : value d.nought ≡ pos 0
  pub value-add : (a b : D) → value (d.add a b) ≡ value a +ℤ value b
  pub value-sub : (a b : D) → value (d.sub a b) ≡ value a -ℤ value b
  pub lt_lem : (a b : D) → d.lt a b ≡ ltb_ℤ (value a) (value b)
  pub value_injective : (a b : D) → value a ≡ value b → a ≡ b
  pub mul_nonneg : (a b : D) → d.nought ≼ a → d.nought ≼ b → d.nought ≼ d.mul a b
