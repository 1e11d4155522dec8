-- ===== src/Domain/Relation/Count.antt =====
-- The left side of a constraint (src/domain/constraint.rs) for variables that are 0 or 1, and the sum
-- of some of them.
use edgelord.Common.{
  ℕ, zero, suc, ◌+◌, ◌<◌, ◌≤◌, ◌≡◌, ◌↔◌, refl, ◌∙◌, ap, Bool, true, false, ◌&&◌, List, [], ◌∷◌,
  some, length, replicate, get_elem?, any, string_eq, if◌then◌else◌, arith, Bool-cases, inl, inr,
}
use edgelord.Money.{
  Decimal, IsExact, ◌⊕◌, ◌≼◌, ◌≺◌, ≺_parts, ≼_parts, parts_≼, ext, ≡_parts, nought_parts, money,
  nought_⊕, ≼_refl, ≼_of_≺,
}
use edgelord.Domain.Id.{MarketId}
use edgelord.Domain.Relation.{
  Constraint, less_equal, greater_equal, equal, ConstraintSense, Indices,
}
use edgelord.Domain.Relation.Coefficients.{is_at}

-- How many of the outcomes from the index `k` on come true and are selected.
unfoldable pub count_from : (ℕ → Bool) → ℕ → List Bool → ℕ
count_from selected k [] = 0
count_from selected k (b ∷ outcomes) =
    let rest = count_from selected (suc k) outcomes in if b && selected k then suc rest else rest

abbrev pub count_true : List MarketId → Indices → List Bool → ℕ
count_true ms indices = count_from (λ i. any (is_at indices i) ms) 0

pub some_injective : {A : Type 0} {a b : A} → some a ≡ some b → a ≡ b
some_injective h = ground (arith, h)

module _ {D : Type 0} ⦃d : Decimal D⦄ where
  -- The left side of a constraint, where each variable is 0 or 1.
  unfoldable pub weigh : List D → List Bool → D
  weigh [] outcomes = d.nought
  weigh (c ∷ cs) [] = d.nought
  weigh (c ∷ cs) (true ∷ outcomes) = c ⊕ weigh cs outcomes
  weigh (c ∷ cs) (false ∷ outcomes) = weigh cs outcomes

  abbrev Compare : ConstraintSense → D → D → Type 0
  Compare less_equal a b = a ≼ b
  Compare greater_equal a b = b ≼ a
  Compare equal a b = a ≡ b

  abbrev pub Satisfies : List Bool → Constraint D → Type 0
  Satisfies outcomes c = Compare c.sense (weigh c.coefficients outcomes) c.rhs

  pub times : ℕ → D
  times zero = d.nought
  times (suc n) = d.one ⊕ times n

  pub weigh-replicate :
      (n : ℕ) (outcomes : List Bool) ⦃x : IsExact D⦄
      → weigh (replicate n d.nought) outcomes ≡ d.nought
  unfolding weigh
  weigh-replicate zero outcomes = refl
  weigh-replicate (suc n) [] = refl
  weigh-replicate (suc n) (true ∷ outcomes) = nought_⊕ _ ∙ weigh-replicate n outcomes
  weigh-replicate (suc n) (false ∷ outcomes) = weigh-replicate n outcomes

  weigh_selected :
      ⦃x : IsExact D⦄ (selected : ℕ → Bool) (k : ℕ) (b : Bool) {c : D} (cs : List D)
      (outcomes : List Bool)
      → c ≡ (if selected k then d.one else d.nought)
      → weigh cs outcomes ≡ times (count_from selected (suc k) outcomes)
      → weigh (c ∷ cs) (b ∷ outcomes) ≡ times (count_from selected k (b ∷ outcomes))
  unfolding weigh count_from times
  weigh_selected selected k false cs outcomes h later = later
  weigh_selected selected k true cs outcomes h later = elim (Bool-cases (selected k)) [
    | inl e ↦ let one : _ ≡ d.one = rw e at h in rw (e, one) (ap (◌⊕◌ d.one) later)
    | inr e ↦ let none_of_it : _ ≡ d.nought = rw e at h in rw (e, none_of_it) (nought_⊕ _ ∙ later)
  ]

  -- With the coefficient 1 for the selected variables and 0 for the others, the count.
  pub weigh-ones :
      ⦃x : IsExact D⦄ (selected : ℕ → Bool) (cs : List D) (k : ℕ) (outcomes : List Bool)
      → length cs ≡ length outcomes
      → ((i : ℕ)
          → i < length cs
          → get_elem? cs i ≡ some (if selected (i + k) then d.one else d.nought))
      → weigh cs outcomes ≡ times (count_from selected k outcomes)
  unfolding weigh count_from times
  weigh-ones selected [] k [] h at = refl
  weigh-ones selected [] k (b ∷ outcomes) h at = absurd (omega arith)
  weigh-ones selected (c ∷ cs) k [] h at = absurd (omega arith)
  weigh-ones selected (c ∷ cs) k (b ∷ outcomes) h at =
      let start : 0 + k ≡ k = omega arith in
      let move : (i : ℕ) → i + suc k ≡ suc i + k = λ i. omega arith in
      let later =
        weigh-ones selected cs (suc k) outcomes (omega arith)
          (λ i j. rw (move i) (at (suc i) (omega arith))) in
      weigh_selected selected k b cs outcomes (rw start at (some_injective (at 0 (omega arith))))
        later

-- A sum of ones, compared with one.
module _ (D : Type 0) ⦃d : Decimal D⦄ ⦃x : IsExact D⦄ (positive : d.nought ≺ d.one) where
  times_nonneg : (n : ℕ) → d.nought ≼ times {D = D} n
  unfolding times
  times_nonneg zero = ≼_refl d.nought
  times_nonneg (suc n) =
      let rest : D = times n in
      let one_up = ≺_parts d.nought d.one positive in
      let below = ≼_parts d.nought rest (times_nonneg n) in
      parts_≼ d.nought (d.one ⊕ rest) (omega (money, one_up, below, nought_parts D))

  pub times_le : (n : ℕ) → (times n ≼ d.one) ↔ (n ≤ 1)
  unfolding times
  times_le zero = (λ h. omega arith, λ h. ≼_of_≺ d.nought d.one positive)
  times_le (suc zero) =
      (λ h. omega arith, λ h. parts_≼ (d.one ⊕ d.nought) d.one (omega (money, nought_parts D)))
  times_le (suc (suc n)) = (
    λ h. absurd (
        omega (
          money,
          ≼_parts (d.one ⊕ (d.one ⊕ times n)) d.one h,
          ≼_parts d.nought (times n) (times_nonneg n),
          ≺_parts d.nought d.one positive,
          nought_parts D,
        )),
    λ h. absurd (omega arith),
  )

  pub times_eq : (n : ℕ) → (times n ≡ d.one) ↔ (n ≡ 1)
  unfolding times
  times_eq zero = (
    λ h. absurd (omega (arith, ≡_parts d.nought d.one h, ≺_parts d.nought d.one positive)),
    λ h. absurd (omega arith),
  )
  times_eq (suc zero) =
      (λ h. refl, λ h. ext (d.one ⊕ d.nought) d.one (omega (money, nought_parts D)))
  times_eq (suc (suc n)) = (
    λ h. absurd (
        omega (
          money,
          ≡_parts (d.one ⊕ (d.one ⊕ times n)) d.one h,
          ≼_parts d.nought (times n) (times_nonneg n),
          ≺_parts d.nought d.one positive,
          nought_parts D,
        )),
    λ h. absurd (omega arith),
  )
