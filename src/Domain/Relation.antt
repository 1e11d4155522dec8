-- ===== src/Domain/Relation.antt =====
-- src/domain/relation.rs, src/domain/constraint.rs, src/domain/cluster.rs: logical relations between
-- markets and the linear constraints that stand for them. The confidence is floating point, of any
-- type here.
pub mod Coefficients
pub mod Count
pub mod Implication
pub mod Meaning
use edgelord.Common.{
  ℕ, zero, suc, ◌<◌, ◌≡◌, refl, sym, ◌∙◌, Bool, true, false, List, [], ◌∷◌, map, String, Option,
  none, some, if◌then◌else◌, ltb, nat_beq, arith, length, length-set, length-replicate, get_elem?,
  get_elem?-set_self, get_elem?-set_ne, get_elem?-replicate, set, replicate, any, lookup, contains,
  string_eq, Option-cases, Bool-cases, inl, inr,
}
use edgelord.Money.{Decimal, ◌⊖◌}
use edgelord.Domain.Id.{MarketId, RelationId, ClusterId, Time}

pub data ConstraintSense : Type 0 where
  greater_equal less_equal equal : ConstraintSense

pub record Constraint (D : Type 0) : Type 0 where
  pub coefficients : List D
  pub sense : ConstraintSense
  pub rhs : D

module _ {D : Type 0} where
  abbrev pub geq : List D → D → Constraint D
  geq cs rhs = record { coefficients = cs; sense = greater_equal; rhs = rhs }

  abbrev pub leq : List D → D → Constraint D
  leq cs rhs = record { coefficients = cs; sense = less_equal; rhs = rhs }

  abbrev pub eq : List D → D → Constraint D
  eq cs rhs = record { coefficients = cs; sense = equal; rhs = rhs }

pub data RelationKind (D : Type 0) : Type 0 where
  implies : (if_yes then_yes : MarketId) → RelationKind D
  mutually_exclusive : (markets : List MarketId) → RelationKind D
  exactly_one : (markets : List MarketId) → RelationKind D
  linear : (terms : List (MarketId × D)) (sense : ConstraintSense) (rhs : D) → RelationKind D

pub record Relation (D F : Type 0) : Type 0 where
  pub id : RelationId
  pub kind : RelationKind D
  pub confidence : F
  pub reasoning : String
  pub inferred_at : Time
  pub expires_at : Time

pub record Cluster (D F : Type 0) : Type 0 where
  pub id : ClusterId
  pub markets : List MarketId
  pub relations : List (Relation D F)
  pub constraints : List (Constraint D)
  pub updated_at : Time

module _ {D : Type 0} where
  abbrev pub kind_market_ids : RelationKind D → List MarketId
  kind_market_ids (implies a b) = a ∷ b ∷ []
  kind_market_ids (mutually_exclusive ms) = ms
  kind_market_ids (exactly_one ms) = ms
  kind_market_ids (linear terms sense rhs) = map (λ t. t.0) terms

module _ {D F : Type 0} where
  abbrev pub is_expired : Time → Relation D F → Bool
  is_expired now r = ltb r.expires_at now

  abbrev pub contains_market : MarketId → Cluster D F → Bool
  contains_market m c = contains m c.markets

-- `market_indices`, which numbers the markets of a cluster.
abbrev pub Indices : Type 0
Indices = List (MarketId × ℕ)

module _ {D : Type 0} where
  -- The write `coeffs[i] = c` if the market has an index. Indices are within bounds by their
  -- construction; a write out of bounds, a panic in the source, changes nothing here.
  unfoldable pub put_coefficient : Indices → MarketId → D → List D → List D
  put_coefficient indices m c coeffs = elim (lookup m indices) [
    | none ↦ coeffs
    | some i ↦ set coeffs i c
  ]

  unfoldable pub put_terms : Indices → List (MarketId × D) → List D → List D
  unfolding put_coefficient
  put_terms indices [] coeffs = coeffs
  put_terms indices ((m, c) ∷ terms) coeffs =
      put_terms indices terms (put_coefficient indices m c coeffs)

  abbrev pub with_sense : ConstraintSense → List D → D → Constraint D
  with_sense less_equal = leq
  with_sense greater_equal = geq
  with_sense equal = eq

module _ {D : Type 0} ⦃d : Decimal D⦄ where
  abbrev pub ones : List MarketId → List (MarketId × D)
  ones = map (λ m. (m, d.one))

  unfoldable pub put_implication : Indices → MarketId → MarketId → List D → List D
  put_implication indices a b coeffs = elim (lookup a indices) [
    | none ↦ coeffs
    | some i ↦ elim (lookup b indices) [
      | none ↦ coeffs
      | some j ↦ set (set coeffs i d.one) j (d.nought ⊖ d.one)
    ]
  ]

  unfoldable pub to_solver_constraints : RelationKind D → Indices → List (Constraint D)
  unfolding put_terms put_implication
  to_solver_constraints (implies a b) indices =
      leq (put_implication indices a b (replicate (length indices) d.nought)) d.nought ∷ []
  to_solver_constraints (mutually_exclusive ms) indices =
      leq (put_terms indices (ones ms) (replicate (length indices) d.nought)) d.one ∷ []
  to_solver_constraints (exactly_one ms) indices =
      eq (put_terms indices (ones ms) (replicate (length indices) d.nought)) d.one ∷ []
  to_solver_constraints (linear terms sense rhs) indices =
      with_sense sense (put_terms indices terms (replicate (length indices) d.nought)) rhs ∷ []
