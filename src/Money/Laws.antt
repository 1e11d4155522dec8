-- ===== src/Money/Laws.antt =====
-- Arithmetic of decimals in the form that `omega` reads: through the two parts of the value.
use edgelord.Common.{
  All, Bool-cases, inl, inr, ℕ, ◌+◌, ◌≤◌, ◌<◌, ◌≡◌, refl, sym, ◌∙◌, ap, Bool, true, false, List, [],
  ◌∷◌, ◌++◌, arith,
}
use edgelord.Common.Int.{pos_part, neg_part, +ℤ_parts, -ℤ_parts, eq_of_parts}
use edgelord.Money.Defs.{Decimal, IsExact, ◌⊕◌, ◌⊖◌, ◌≼◌, ◌≺◌, max, min, sum, sum_from}

module _ {D : Type 0} ⦃d : Decimal D⦄ ⦃x : IsExact D⦄ where
  -- The positive and the negative part of the value, of which one is 0.
  abbrev pub up : D → ℕ
  up a = pos_part (x.value a)

  abbrev pub down : D → ℕ
  down a = neg_part (x.value a)

  pub add_parts : (a b : D) → up (a ⊕ b) + down a + down b ≡ down (a ⊕ b) + up a + up b
  add_parts a b = rw (x.value-add a b) (+ℤ_parts (x.value a) (x.value b))

  pub sub_parts : (a b : D) → up (a ⊖ b) + down a + up b ≡ down (a ⊖ b) + up a + down b
  sub_parts a b = rw (x.value-sub a b) (-ℤ_parts (x.value a) (x.value b))

  pub ≺_parts : (a b : D) → a ≺ b → up a + down b < up b + down a
  ≺_parts a b h = ground (arith, x.lt_lem a b)

  pub ≼_parts : (a b : D) → a ≼ b → up a + down b ≤ up b + down a
  ≼_parts a b h = ground (arith, x.lt_lem b a)

  pub parts_≼ : (a b : D) → up a + down b ≤ up b + down a → a ≼ b
  parts_≼ a b h = ground (arith, x.lt_lem b a)

  pub ext : (a b : D) → up a + down b ≡ up b + down a → a ≡ b
  ext a b h = x.value_injective a b (eq_of_parts _ _ h)

  pub ≡_parts : (a b : D) → a ≡ b → (up a ≡ up b) × (down a ≡ down b)
  ≡_parts a b e = rw e (refl, refl)

pub nought_parts :
    (D : Type 0) ⦃d : Decimal D⦄ ⦃x : IsExact D⦄
    → (pos_part (x.value d.nought) ≡ 0) × (neg_part (x.value d.nought) ≡ 0)
nought_parts D ⦃x⦄ = rw x.value-nought (refl, refl)

pub ruleset money = (arith, add_parts, sub_parts)

module _ {D : Type 0} ⦃d : Decimal D⦄ ⦃x : IsExact D⦄ where
  pub ⊕_comm : (a b : D) → a ⊕ b ≡ b ⊕ a
  ⊕_comm a b = ext _ _ (omega (arith, add_parts))

  pub ⊕_assoc : (a b c : D) → a ⊕ b ⊕ c ≡ a ⊕ (b ⊕ c)
  ⊕_assoc a b c = ext _ _ (omega (arith, add_parts))

  pub nought_⊕ : (a : D) → d.nought ⊕ a ≡ a
  nought_⊕ a = ext _ _ (omega (money, nought_parts D))

  sum_from-⊕ : (a b : D) (xs : List D) → sum_from (a ⊕ b) xs ≡ a ⊕ sum_from b xs
  unfolding sum_from
  sum_from-⊕ a b [] = refl
  sum_from-⊕ a b (c ∷ xs) = rw (⊕_assoc a b c) (sum_from-⊕ a (b ⊕ c) xs)

  pub sum-cons : (a : D) (xs : List D) → sum (a ∷ xs) ≡ a ⊕ sum xs
  unfolding sum sum_from
  sum-cons a xs = ap (λ b. sum_from b xs) (⊕_comm d.nought a) ∙ sum_from-⊕ a d.nought xs

  pub sum-append : (xs ys : List D) → sum (xs ++ ys) ≡ sum xs ⊕ sum ys
  unfolding sum sum_from
  sum-append [] ys = sym (nought_⊕ (sum ys))
  sum-append (a ∷ xs) ys =
      rw (sum-cons a (xs ++ ys), sum-cons a xs, sum-append xs ys) (sym (⊕_assoc a _ _))

  pub ≼_refl : (a : D) → a ≼ a
  ≼_refl a = parts_≼ a a (omega arith)

  pub ≼_trans : (a b c : D) → a ≼ b → b ≼ c → a ≼ c
  ≼_trans a b c h k = parts_≼ a c (omega (arith, ≼_parts a b h, ≼_parts b c k))

  pub ≼_of_≺ : (a b : D) → a ≺ b → a ≼ b
  ≼_of_≺ a b h = parts_≼ a b (omega (arith, ≺_parts a b h))

  -- A bound of the larger of two bounds both.
  pub max_bounds : (a b c : D) → max a b ≼ c → (a ≼ c) × (b ≼ c)
  max_bounds a b c h = elim (Bool-cases (d.lt b a)) [
    | inl e ↦ let k : a ≼ c = rw e at h in (k, ≼_trans b a c (≼_of_≺ b a e) k)
    | inr e ↦ let k : b ≼ c = rw e at h in (≼_trans a b c e k, k)
  ]

  -- The smaller of two is below both.
  pub min_bounds : (a b : D) → (min a b ≼ a) × (min a b ≼ b)
  min_bounds a b = elim (Bool-cases (d.lt b a)) [
    | inl e ↦ rw e (≼_of_≺ b a e, ≼_refl b)
    | inr e ↦ rw e (≼_refl a, e)
  ]
