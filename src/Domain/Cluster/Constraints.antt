-- ===== src/Domain/Cluster/Constraints.antt =====
-- The shape of a cluster's constraints (src/domain/cluster.rs, src/domain/relation.rs).
use edgelord.Common.{
  ◌≡◌, ◌∙◌, List, [], ◌∷◌, length, length-set, length-replicate, replicate, lookup, Option-cases,
  inl, inr, All, All-append, string_eq, subst, arith, set,
}
use edgelord.Money.{Decimal, ◌⊖◌}
use edgelord.Domain.Id.{MarketId, ClusterId, Time}
use edgelord.Domain.Relation.{
  Relation, RelationKind, implies, mutually_exclusive, exactly_one, linear, greater_equal,
  less_equal, equal, Indices, Constraint, put_implication, ones, to_solver_constraints,
}
use edgelord.Domain.Relation.Coefficients.{length-put_terms}
use edgelord.Domain.Cluster.{
  all_constraints, from_relations, cluster_markets, numbered, length-numbered,
}

module _ {D : Type 0} ⦃d : Decimal D⦄ where
  abbrev HasWidth : Indices → Constraint D → Type 0
  HasWidth indices k = length k.coefficients ≡ length indices

  length-put_implication :
      (indices : Indices) (a b : MarketId) (cs : List D)
      → length (put_implication indices a b cs) ≡ length cs
  unfolding put_implication
  length-put_implication indices a b cs = elim (Option-cases (lookup a indices)) [
    | inl e ↦ ground (arith, e)
    | inr (i, e) ↦ elim (Option-cases (lookup b indices)) [
      | inl f ↦ ground (arith, e, f)
      | inr (j, f) ↦
          ground
            (arith, e, f, length-set (set cs i d.one) j (d.nought ⊖ d.one), length-set cs i d.one)
    ]
  ]

  to_solver_constraints-HasWidth :
      (kind : RelationKind D) (indices : Indices)
      → All (HasWidth indices) (to_solver_constraints kind indices)
  unfolding to_solver_constraints
  to_solver_constraints-HasWidth (implies a b) indices =
      let start = replicate (length indices) d.nought in
      (length-put_implication indices a b start ∙ length-replicate (length indices) d.nought, tt)
  to_solver_constraints-HasWidth (mutually_exclusive ms) indices =
      let start = replicate (length indices) d.nought in
      (length-put_terms indices (ones ms) start ∙ length-replicate (length indices) d.nought, tt)
  to_solver_constraints-HasWidth (exactly_one ms) indices =
      let start = replicate (length indices) d.nought in
      (length-put_terms indices (ones ms) start ∙ length-replicate (length indices) d.nought, tt)
  to_solver_constraints-HasWidth (linear terms greater_equal rhs) indices =
      let start = replicate (length indices) d.nought in
      (length-put_terms indices terms start ∙ length-replicate (length indices) d.nought, tt)
  to_solver_constraints-HasWidth (linear terms less_equal rhs) indices =
      let start = replicate (length indices) d.nought in
      (length-put_terms indices terms start ∙ length-replicate (length indices) d.nought, tt)
  to_solver_constraints-HasWidth (linear terms equal rhs) indices =
      let start = replicate (length indices) d.nought in
      (length-put_terms indices terms start ∙ length-replicate (length indices) d.nought, tt)

module _ {D F : Type 0} ⦃d : Decimal D⦄ where
  all_constraints-HasWidth :
      (indices : Indices) (rs : List (Relation D F))
      → All (HasWidth indices) (all_constraints indices rs)
  unfolding all_constraints
  all_constraints-HasWidth indices [] = tt
  all_constraints-HasWidth indices (r ∷ rs) =
      All-append (HasWidth indices) (to_solver_constraints r.kind indices)
        (all_constraints indices rs) (to_solver_constraints-HasWidth r.kind indices)
        (all_constraints-HasWidth indices rs)

  -- Every constraint of a cluster has one coefficient for each of its markets.
  pub from_relations-width :
      (id : ClusterId) (now : Time) (rs : List (Relation D F))
      → All
          (λ k. length k.coefficients ≡ length (from_relations id now rs).markets)
          (from_relations id now rs).constraints
  unfolding from_relations
  from_relations-width id now rs =
      let markets = cluster_markets rs in
      subst (λ n. All (λ k. length k.coefficients ≡ n) (all_constraints (numbered 0 markets) rs))
        (length-numbered 0 markets) (all_constraints-HasWidth (numbered 0 markets) rs)
