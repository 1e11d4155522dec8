-- ===== src/Domain/Relation/Meaning.antt =====
-- What the constraints of a relation (src/domain/relation.rs) say of outcomes: of which markets come
-- true, by their indices.
use edgelord.Common.{
  ◌||◌, ◌>>=◌, Option-cases, not, ℕ, ◌+◌, ◌<◌, ◌≤◌, ◌≡◌, ◌↔◌, sym, ◌∙◌, Bool, true, List, Option,
  some, All, length, length-replicate, replicate, get_elem?, any, get_elem?-none, lookup, string_eq,
  ltb, arith, Bool-cases, Option-cases, ◌>>=◌, inl, inr,
}
use edgelord.Money.{Decimal, IsExact, ◌≺◌}
use edgelord.Domain.Id.{MarketId}
use edgelord.Domain.Relation.{
  Indices, put_implication, ones, put_terms, implies, mutually_exclusive, exactly_one,
  to_solver_constraints,
}
use edgelord.Domain.Relation.Coefficients.{is_at, sum_coefficients, length-put_terms}
use edgelord.Domain.Relation.Count.{
  count_true, weigh, Satisfies, weigh-ones, times, times_le, times_eq,
}
use edgelord.Domain.Relation.Implication.{weigh-implication}

-- Whether the market comes true, if it has an index with an outcome.
abbrev pub truth : Indices → List Bool → MarketId → Option Bool
truth indices outcomes m = lookup m indices >>= get_elem? outcomes

truth_index :
    (indices : Indices) (outcomes : List Bool) (m : MarketId) {p : Bool}
    → truth indices outcomes m ≡ some p
    → (i : ℕ) × (lookup m indices ≡ some i)
      × (get_elem? outcomes i ≡ some p)
      × (i < length outcomes)
truth_index indices outcomes m h = elim (Option-cases (lookup m indices)) [
  | inl e ↦ absurd (ground (arith, e, h))
  | inr (i, e) ↦
      let came : get_elem? outcomes i ≡ some _ = rw e at h in
      elim (Bool-cases (ltb i (length outcomes))) [
        | inl inside ↦ (i, e, came, ground (arith, inside))
        | inr outside ↦
            let past = get_elem?-none outcomes i (ground (arith, outside)) in absurd (cc)
      ]
]

module _ (D : Type 0) ⦃d : Decimal D⦄ ⦃x : IsExact D⦄ where
  abbrev zeros : Indices → List D
  zeros indices = replicate (length indices) d.nought

  weigh-put_terms :
      (ms : List MarketId) (indices : Indices) (outcomes : List Bool)
      → length outcomes ≡ length indices
      → weigh (put_terms indices (ones ms) (zeros indices)) outcomes
        ≡ times (count_true ms indices outcomes)
  weigh-put_terms ms indices outcomes size =
      let cs : List D = put_terms indices (ones ms) (zeros indices) in
      let width : length cs ≡ length indices =
        length-put_terms indices (ones ms) (zeros indices)
        ∙ length-replicate (length indices) d.nought in
      weigh-ones (λ i. any (is_at indices i) ms) cs 0 outcomes (width ∙ sym size)
        (λ i h.
          let inside : ltb i (length indices) ≡ true = ground (arith, h, width) in
          let there : i + 0 ≡ i = omega arith in
          rw there (rw inside at (sum_coefficients {D = D} ms indices i)))

  -- Let each market come true or not, the one as 1 and the other as 0 in the constraints, where 0 is
  -- below 1. The constraint of an implication holds exactly if the second market comes true or the
  -- first does not; those of at most one and of exactly one market hold exactly if at most one, or
  -- exactly one, of the variables of the markets is true.
  pub to_solver_constraints-Satisfies :
      d.nought ≺ d.one
      → (indices : Indices) (outcomes : List Bool) (ms : List MarketId) (a b : MarketId)
        (p q : Bool)
      → length outcomes ≡ length indices
      → truth indices outcomes a ≡ some p
      → truth indices outcomes b ≡ some q
      → (All (Satisfies {D = D} outcomes) (to_solver_constraints (implies a b) indices)
          ↔ ((not p || q) ≡ true))
        × (All (Satisfies {D = D} outcomes) (to_solver_constraints (mutually_exclusive ms) indices)
            ↔ (count_true ms indices outcomes ≤ 1))
        × (All (Satisfies {D = D} outcomes) (to_solver_constraints (exactly_one ms) indices)
            ↔ (count_true ms indices outcomes ≡ 1))
  unfolding to_solver_constraints put_implication
  to_solver_constraints-Satisfies positive indices outcomes ms a b p q size at bt =
      let (i, led, came, inside) = truth_index indices outcomes a at in
      let (j, led', came', inside') = truth_index indices outcomes b bt in
      let (sound, complete) =
        weigh-implication D positive outcomes i j p q (length indices) (omega (arith, inside, size))
          (omega (arith, inside', size)) came came' in
      let total = weigh-put_terms ms indices outcomes size in
      let n = count_true ms indices outcomes in
      let (le_sound, le_complete) = times_le D positive n in
      let (eq_sound, eq_complete) = times_eq D positive n in
      (
        (
          λ h. sound (rw (led, led', put_implication) at h.0),
          λ h. (rw (led, led', put_implication) (complete h), tt),
        ),
        (λ h. le_sound (rw total at h.0), λ h. (rw total (le_complete h), tt)),
        (λ h. eq_sound (rw total at h.0), λ h. (rw total (eq_complete h), tt)),
      )
