-- ===== src/Domain/Relation/Implication.antt =====
-- The left side of the constraint of an implication (src/domain/relation.rs).
use edgelord.Common.{
  ◌||◌, not, ℕ, zero, suc, ◌<◌, ◌≡◌, ◌≢◌, ◌↔◌, ◌⊎◌, refl, sym, ◌∙◌, ap, Bool, true, false, List, [],
  ◌∷◌, some, length-replicate, replicate, set, get_elem?, get_elem?-set_ne, get_elem?-set_self,
  get_elem?-replicate, string_eq, nat_beq, if◌then◌else◌, arith, Bool-cases, inl, inr,
}
use edgelord.Money.{
  Decimal, IsExact, ◌⊕◌, ◌⊖◌, ◌≼◌, ◌≺◌, ≺_parts, ≼_parts, parts_≼, ext, ≡_parts, nought_parts,
  money,
}
use edgelord.Domain.Relation.Count.{some_injective, weigh, weigh-replicate}

-- Writing a coefficient, and what it adds to the left side.
module _ (D : Type 0) ⦃d : Decimal D⦄ ⦃x : IsExact D⦄ where
  abbrev part : Bool → D → D
  part b c = if b then c else d.nought

  weigh-set :
      (cs : List D) (outcomes : List Bool) (i : ℕ) (c old : D) (b : Bool)
      → get_elem? cs i ≡ some old
      → get_elem? outcomes i ≡ some b
      → weigh (set cs i c) outcomes ⊕ part b old ≡ weigh cs outcomes ⊕ part b c
  unfolding weigh
  weigh-set [] outcomes i c old b h k = absurd (cc)
  weigh-set (e ∷ cs) [] i c old b h k = absurd (cc)
  weigh-set (e ∷ cs) (true ∷ outcomes) zero c old b h k =
      let rest : D = weigh cs outcomes in
      let same_old : e ≡ old = some_injective h in
      let comes : true ≡ b = some_injective k in
      rw⁻¹ (same_old, comes) (ext (c ⊕ rest ⊕ e) (e ⊕ rest ⊕ c) (omega money))
  weigh-set (e ∷ cs) (false ∷ outcomes) zero c old b h k =
      let fails : false ≡ b = some_injective k in rw⁻¹ fails refl
  weigh-set (e ∷ cs) (true ∷ outcomes) (suc i) c old b h k =
      let before : D = weigh cs outcomes in
      let after : D = weigh (set cs i c) outcomes in
      let later = weigh-set cs outcomes i c old b h k in
      ext (e ⊕ after ⊕ part b old) (e ⊕ before ⊕ part b c)
        (omega (money, ≡_parts (after ⊕ part b old) (before ⊕ part b c) later))
  weigh-set (e ∷ cs) (false ∷ outcomes) (suc i) c old b h k = weigh-set cs outcomes i c old b h k

  abbrev minus_one : D
  minus_one = d.nought ⊖ d.one

  module _ (positive : d.nought ≺ d.one) {w1 w2 : D} where
    -- The left side of an implication: 1 for the one market, -1 for the other.
    compare_implication :
        (p q : Bool) (old : D)
        → w1 ⊕ part p d.nought ≡ d.nought ⊕ part p d.one
        → w2 ⊕ part q old ≡ w1 ⊕ part q minus_one
        → (old ≡ d.nought) ⊎ ((old ≡ d.one) × (p ≡ q))
        → (w2 ≼ d.nought) ↔ ((not p || q) ≡ true)
    compare_implication false false old h k o =
        let m = ≡_parts (w1 ⊕ d.nought) (d.nought ⊕ d.nought) h in
        let n = ≡_parts (w2 ⊕ d.nought) (w1 ⊕ d.nought) k in
        (λ l. refl, λ l. parts_≼ w2 d.nought (omega (money, m, n, nought_parts D)))
    compare_implication false true old h k (inl o) =
        let m = ≡_parts (w1 ⊕ d.nought) (d.nought ⊕ d.nought) h in
        let n = ≡_parts (w2 ⊕ d.nought) (w1 ⊕ minus_one) (rw o at k) in
        let above = ≺_parts d.nought d.one positive in
        (λ l. refl, λ l. parts_≼ w2 d.nought (omega (money, m, n, above, nought_parts D)))
    compare_implication false true old h k (inr (o, e)) = absurd (cc)
    compare_implication true false old h k o =
        let m = ≡_parts (w1 ⊕ d.nought) (d.nought ⊕ d.one) h in
        let n = ≡_parts (w2 ⊕ d.nought) (w1 ⊕ d.nought) k in
        let above = ≺_parts d.nought d.one positive in
        (
          λ l. absurd (omega (money, m, n, above, ≼_parts w2 d.nought l, nought_parts D)),
          λ l. absurd (cc),
        )
    compare_implication true true old h k (inl o) =
        let m = ≡_parts (w1 ⊕ d.nought) (d.nought ⊕ d.one) h in
        let n = ≡_parts (w2 ⊕ d.nought) (w1 ⊕ minus_one) (rw o at k) in
        (λ l. refl, λ l. parts_≼ w2 d.nought (omega (money, m, n, nought_parts D)))
    compare_implication true true old h k (inr (o, e)) =
        let m = ≡_parts (w1 ⊕ d.nought) (d.nought ⊕ d.one) h in
        let n = ≡_parts (w2 ⊕ d.one) (w1 ⊕ minus_one) (rw o at k) in
        let above = ≺_parts d.nought d.one positive in
        (λ l. refl, λ l. parts_≼ w2 d.nought (omega (money, m, n, above, nought_parts D)))

  pub weigh-implication :
      (positive : d.nought ≺ d.one) (outcomes : List Bool) (i j : ℕ) (p q : Bool) (n : ℕ)
      → i < n
      → j < n
      → get_elem? outcomes i ≡ some p
      → get_elem? outcomes j ≡ some q
      → (weigh (set (set (replicate n d.nought) i d.one) j (d.nought ⊖ d.one)) outcomes ≼ d.nought)
        ↔ ((not p || q) ≡ true)
  weigh-implication positive outcomes i j p q n h k at bt =
      let zeros : List D = replicate n d.nought in
      let first : List D = set zeros i d.one in
      let size = length-replicate n d.nought in
      let m =
        weigh-set zeros outcomes i d.one d.nought p (get_elem?-replicate n d.nought i h) at
        ∙ ap (λ w. w ⊕ part p d.one) (weigh-replicate n outcomes) in
      elim (Bool-cases (nat_beq i j)) [
        | inl e ↦
            let same : i ≡ j = ground (arith, e) in
            let old : get_elem? first j ≡ some d.one =
              ap (get_elem? first) (sym same)
              ∙ get_elem?-set_self zeros i d.one (omega (arith, size, h)) in
            compare_implication positive p q d.one m
              (weigh-set first outcomes j (d.nought ⊖ d.one) d.one q old bt)
              (inr (refl, some_injective (sym at ∙ ap (get_elem? outcomes) same ∙ bt)))
        | inr e ↦
            let other : i ≢ j = ground (arith, e) in
            let old : get_elem? first j ≡ some d.nought =
              get_elem?-set_ne zeros d.one other ∙ get_elem?-replicate n d.nought j k in
            compare_implication positive p q d.nought m
              (weigh-set first outcomes j (d.nought ⊖ d.one) d.nought q old bt) (inl refl)
      ]
