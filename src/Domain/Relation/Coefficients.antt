-- ===== src/Domain/Relation/Coefficients.antt =====
-- Which coefficients the constraints of a relation have.
use edgelord.Common.{
  ℕ, ◌<◌, ◌≤◌, ltb, ◌≡◌, refl, ◌∙◌, Bool, false, List, [], ◌∷◌, none, some, if◌then◌else◌, nat_beq,
  arith, length, length-set, length-replicate, get_elem?, get_elem?-set_self, get_elem?-set_ne,
  get_elem?-replicate, get_elem?-none, replicate, any, lookup, string_eq, Option-cases, Bool-cases,
  inl, inr,
}
use edgelord.Money.{Decimal}
use edgelord.Domain.Id.{MarketId}
use edgelord.Domain.Relation.{
  Indices, put_coefficient, put_terms, ones, to_solver_constraints, mutually_exclusive, exactly_one,
  leq, eq,
}

-- Whether the market has the index `i`.
abbrev pub is_at : Indices → ℕ → MarketId → Bool
is_at indices i m = elim (lookup m indices) [ none ↦ false | some j ↦ nat_beq j i ]

module _ {D : Type 0} ⦃d : Decimal D⦄ where
  length-put_coefficient :
      (indices : Indices) (m : MarketId) (c : D) (cs : List D)
      → length (put_coefficient indices m c cs) ≡ length cs
  unfolding put_coefficient
  length-put_coefficient indices m c cs = elim (Option-cases (lookup m indices)) [
    | inl e ↦ rw (e, put_coefficient)
    | inr (j, e) ↦ rw (e, put_coefficient) (length-set cs j c)
  ]

  put_coefficient-get :
      (indices : Indices) (m : MarketId) (c : D) (cs : List D) (i : ℕ)
      → i < length cs
      → get_elem? (put_coefficient indices m c cs) i
        ≡ (if is_at indices i m then some c else get_elem? cs i)
  unfolding put_coefficient
  put_coefficient-get indices m c cs i h = elim (Option-cases (lookup m indices)) [
    | inl e ↦ rw (is_at, put_coefficient, e)
    | inr (j, e) ↦ elim (Bool-cases (nat_beq j i)) [
      | inl same ↦
          let eq_ji : j ≡ i = ground arith in
          rw (is_at, put_coefficient, e, same, eq_ji) (get_elem?-set_self cs i c h)
      | inr other ↦ rw (is_at, put_coefficient, e, other) (get_elem?-set_ne cs c (ground arith))
    ]
  ]

  get_elem?-put_terms :
      (indices : Indices) (ms : List MarketId) (cs : List D) (i : ℕ)
      → i < length cs
      → get_elem? (put_terms indices (ones ms) cs) i
        ≡ (if any (is_at indices i) ms then some d.one else get_elem? cs i)
  unfolding put_terms any
  get_elem?-put_terms indices [] cs i h = refl
  get_elem?-put_terms indices (m ∷ ms) cs i h =
      get_elem?-put_terms indices ms (put_coefficient indices m d.one cs) i
        (rw (length-put_coefficient indices m d.one cs) h)
      ∙ ground (arith, put_coefficient-get indices m d.one cs i h)

  pub length-put_terms :
      (indices : Indices) (terms : List (MarketId × D)) (cs : List D)
      → length (put_terms indices terms cs) ≡ length cs
  unfolding put_terms
  length-put_terms indices [] cs = refl
  length-put_terms indices ((m, c) ∷ terms) cs =
      length-put_terms indices terms (put_coefficient indices m c cs)
      ∙ length-put_coefficient indices m c cs

  pub sum_coefficients :
      (ms : List MarketId) (indices : Indices) (i : ℕ)
      → get_elem? (put_terms indices (ones ms) (replicate (length indices) d.nought)) i ≡ (
          if ltb i (length indices)
          then some (if any (is_at indices i) ms then d.one else d.nought)
          else none)
  sum_coefficients ms indices i =
      let zeros : List D = replicate (length indices) d.nought in
      let size = length-replicate (length indices) d.nought in
      elim (Bool-cases (ltb i (length indices))) [
        | inl e ↦
            let h : i < length indices = ground arith in
            rw e (
              get_elem?-put_terms indices ms zeros i (omega (arith, size, h))
              ∙ ground (arith, get_elem?-replicate (length indices) d.nought i h))
        | inr e ↦
            let h : length indices ≤ i = ground arith in
            rw e (
              get_elem?-none (put_terms indices (ones ms) zeros) i
                (omega (arith, size, length-put_terms indices (ones ms) zeros, h)))
      ]

  -- For every relation that at most one or exactly one of some markets comes true, there is one
  -- constraint, with a coefficient for each variable: 1 for the variables of these markets and 0 for
  -- all others. It compares their sum with 1, by `<=` or by `=`.
  pub to_solver_constraints-ones :
      (ms : List MarketId) (indices : Indices)
      → (cs : List D) × (to_solver_constraints (mutually_exclusive ms) indices ≡ leq cs d.one ∷ [])
        × (to_solver_constraints (exactly_one ms) indices ≡ eq cs d.one ∷ [])
        × ((i : ℕ)
            → get_elem? cs i ≡ (
                if ltb i (length indices)
                then some (if any (is_at indices i) ms then d.one else d.nought)
                else none))
  unfolding to_solver_constraints
  to_solver_constraints-ones ms indices = (
    put_terms indices (ones ms) (replicate (length indices) d.nought),
    refl,
    refl,
    sum_coefficients ms indices,
  )
