-- ===== src/Domain/Cluster.antt =====
-- src/domain/cluster.rs: `Cluster::from_relations`. The identifier is generated by the caller, which
-- also reads the clock; a hash set of markets is a list without repetitions.
pub mod Constraints
use Prim.Native.Nat.{Ordering}
use Prim.Native.String.{compare}
use edgelord.Common.{
  ℕ, zero, suc, ◌≡◌, ◌∙◌, ap, sym, refl, Bool, true, false, ◌||◌, List, [], ◌∷◌, ◌++◌, map, String,
  length, contains, set_insert, contains-set_insert, ◌==◌, ==_iff, string_eq, length-replicate,
  replicate, All, All-append, if◌then◌else◌, arith,
}
use edgelord.Money.{Decimal}
use edgelord.Domain.Id.{MarketId, ClusterId, Time}
use edgelord.Domain.Relation.{
  Relation, RelationKind, implies, mutually_exclusive, exactly_one, linear, Cluster, Constraint,
  Indices, kind_market_ids, to_solver_constraints,
}

abbrev is_before : String → String → Bool
is_before a b = elim (compare a b) [ Ordering.gt ↦ false | _ ↦ true ]

-- `sort_by` on the names.
unfoldable pub insert_market : MarketId → List MarketId → List MarketId
insert_market m [] = m ∷ []
insert_market m (k ∷ ks) =
    let rest = insert_market m ks in if is_before m k then m ∷ k ∷ ks else k ∷ rest

unfoldable pub sort_markets : List MarketId → List MarketId
sort_markets [] = []
sort_markets (m ∷ ms) = insert_market m (sort_markets ms)

unfoldable pub collect_set : List MarketId → List MarketId
collect_set [] = []
collect_set (m ∷ ms) = (set_insert m (collect_set ms)).0

-- `enumerate`.
unfoldable pub numbered : ℕ → List MarketId → Indices
numbered i [] = []
numbered i (m ∷ ms) = (m, i) ∷ numbered (suc i) ms

module _ {D F : Type 0} where
  unfoldable pub all_market_ids : List (Relation D F) → List MarketId
  all_market_ids [] = []
  all_market_ids (r ∷ rs) = kind_market_ids r.kind ++ all_market_ids rs

  unfoldable pub cluster_markets : List (Relation D F) → List MarketId
  cluster_markets rs = sort_markets (collect_set (all_market_ids rs))

module _ {D F : Type 0} ⦃d : Decimal D⦄ where
  unfoldable pub all_constraints : Indices → List (Relation D F) → List (Constraint D)
  all_constraints indices [] = []
  all_constraints indices (r ∷ rs) =
      to_solver_constraints r.kind indices ++ all_constraints indices rs

  unfoldable pub from_relations : ClusterId → Time → List (Relation D F) → Cluster D F
  from_relations id now rs =
      let markets = cluster_markets rs in
      record {
        id = id;
        markets = markets;
        relations = rs;
        constraints = all_constraints (numbered 0 markets) rs;
        updated_at = now;
      }

contains-insert_market :
    (m k : MarketId) (ms : List MarketId)
    → contains m (insert_market k ms) ≡ (k == m || contains m ms)
unfolding insert_market contains
contains-insert_market m k [] = refl
contains-insert_market m k (n ∷ ms) =
    let rest = contains-insert_market m k ms in ground (arith, rest)

contains-sort_markets :
    (m : MarketId) (ms : List MarketId) → contains m (sort_markets ms) ≡ contains m ms
unfolding sort_markets contains
contains-sort_markets m [] = refl
contains-sort_markets m (k ∷ ms) =
    let rest = contains-sort_markets m ms in
    ground (arith, rest, contains-insert_market m k (sort_markets ms))

contains-collect_set :
    (m : MarketId) (ms : List MarketId) → contains m (collect_set ms) ≡ contains m ms
unfolding collect_set contains
contains-collect_set m [] = refl
contains-collect_set m (k ∷ ms) =
    let rest = contains-collect_set m ms in
    ground (arith, rest, contains-set_insert k m (collect_set ms))

-- The cluster has the markets that its relations name.
pub contains-cluster_markets :
    {D F : Type 0} (m : MarketId) (rs : List (Relation D F))
    → contains m (cluster_markets rs) ≡ contains m (all_market_ids rs)
unfolding cluster_markets
contains-cluster_markets m rs =
    contains-sort_markets m (collect_set (all_market_ids rs))
    ∙ contains-collect_set m (all_market_ids rs)

pub length-numbered : (i : ℕ) (ms : List MarketId) → length (numbered i ms) ≡ length ms
unfolding numbered
length-numbered i [] = refl
length-numbered i (m ∷ ms) = ap suc (length-numbered (suc i) ms)
