-- ===== src/Inference/Known.antt =====
-- The markets that an answer of the model can name (src/adapter/outbound/inference/inferrer.rs).
use edgelord.Common.{
  ℕ, suc, ◌≡◌, true, List, [], ◌∷◌, map, String, Option, none, some, Result, Result-cases, IfSome,
  IfOk, ==_iff, string_eq, contains, lookup, insert, lookup-insert, All, Option-cases, Bool-cases,
  inl, inr, ltb, length, arith,
}
use edgelord.Domain.Id.{MarketId, RelationId, Time}
use edgelord.Domain.Relation.{Relation, RelationKind, kind_market_ids}
use edgelord.Inference.Inferrer.{
  MarketSummary, RawRelation, IdMap, market_name, id_map_from, mapped, named, all_named,
  into_kind_mapped, keep_mapped, parse_response, infer,
}

abbrev pub ids_of : List MarketSummary → List MarketId
ids_of = map (λ m. m.id)

-- A market of the list.
abbrev pub IsKnown : List MarketSummary → MarketId → Type 0
IsKnown markets id = contains id (ids_of markets) ≡ true

abbrev pub AreKnown : List MarketSummary → List MarketId → Type 0
AreKnown markets ids = All (IsKnown markets) ids

abbrev pub RelationsKnown : {D F : Type 0} → List MarketSummary → List (Relation D F) → Type 0
RelationsKnown markets = All (λ r. AreKnown markets (kind_market_ids r.kind))

module _ {ℓ κ μ} {A : Type ℓ} (P : A → Type κ) (Q : A → Type μ) where
  pub All-map : (xs : List A) → ((a : A) → P a → Q a) → All P xs → All Q xs
  All-map [] f h = tt
  All-map (x ∷ xs) f (here, later) = (f x here, All-map xs f later)

IsKnown-cons :
    (m : MarketSummary) (ms : List MarketSummary) (id : MarketId)
    → IsKnown ms id
    → IsKnown (m ∷ ms) id
unfolding contains
IsKnown-cons m ms id h = ground arith

pub IsKnown-self : (ms : List MarketSummary) → All (λ m. IsKnown ms m.id) ms
unfolding contains
IsKnown-self [] = tt
IsKnown-self (m ∷ ms) = (
  ground (arith, ==_iff m.id m.id),
  All-map (λ k. IsKnown ms k.id) (λ k. IsKnown (m ∷ ms) k.id) ms (λ k h. IsKnown-cons m ms k.id h)
      (IsKnown-self ms),
)

module _ (markets : List MarketSummary) where
  IsKnown-id_map :
      (i : ℕ) (ms : List MarketSummary) (ids : IdMap)
      → All (λ m. IsKnown markets m.id) ms
      → ((name : String) (id : MarketId) → lookup name ids ≡ some id → IsKnown markets id)
      → (name : String) (id : MarketId) → lookup name (id_map_from i ms ids) ≡ some id
      → IsKnown markets id
  unfolding id_map_from
  IsKnown-id_map i [] ids k h name id e = h name id e
  IsKnown-id_map i (m ∷ ms) ids (here, later) h name id e =
      IsKnown-id_map (suc i) ms (insert (market_name i) m.id ids) later
        (λ n j found. ground (arith, lookup-insert (market_name i) n m.id ids, h n j)) name id e

  module _ (ids : IdMap)
      (known : (name : String) (id : MarketId)
        → lookup name ids ≡ some id
        → IsKnown markets id) where
    AreKnown-mapped : (names : List String) → IfSome (AreKnown markets) (mapped ids names)
    unfolding mapped
    AreKnown-mapped [] = tt
    AreKnown-mapped (name ∷ names) = elim (Option-cases (lookup name ids)) [
      | inl e ↦ rw (e, mapped) tt
      | inr (id, e) ↦ ground (arith, e, known name id, AreKnown-mapped names)
    ]

    AreKnown-all_named :
        (names : Option (List String)) → IfSome (AreKnown markets) (all_named ids names)
    AreKnown-all_named none = tt
    AreKnown-all_named (some names) = AreKnown-mapped names

    IsKnown-named : (name : Option String) → IfSome (IsKnown markets) (named ids name)
    IsKnown-named none = tt
    IsKnown-named (some name) = elim (Option-cases (lookup name ids)) [
      | inl e ↦ rw e tt
      | inr (id, e) ↦ rw e (known name id e)
    ]

    AreKnown-kind :
        (D : Type 0) {F : Type 0} (r : RawRelation F)
        → IfSome
            (λ (k : RelationKind D). AreKnown markets (kind_market_ids k))
            (into_kind_mapped ids r)
    unfolding into_kind_mapped
    AreKnown-kind D r =
        ground
          (arith, IsKnown-named r.if_yes, IsKnown-named r.then_yes, AreKnown-all_named r.markets)

    RelationsKnown-keep_mapped :
        (D : Type 0) {F : Type 0} (new_id : ℕ → RelationId) (now : Time) (ttl n : ℕ)
        (raw : List (RawRelation F))
        → RelationsKnown markets (keep_mapped {D = D} new_id now ttl ids n raw)
    unfolding keep_mapped
    RelationsKnown-keep_mapped D new_id now ttl n [] = tt
    RelationsKnown-keep_mapped D new_id now ttl n (r ∷ raw) =
        let later = RelationsKnown-keep_mapped D new_id now ttl (suc n) raw in
        let here = AreKnown-kind D r in
        elim (Option-cases (into_kind_mapped {D = D} ids r)) [
          | inl e ↦ rw (e, keep_mapped) later
          | inr (kind, e) ↦ rw (e, keep_mapped) (rw e at here, later)
        ]

IsKnown-none :
    (markets : List MarketSummary) (name : String) (id : MarketId)
    → lookup name [] ≡ some id
    → IsKnown markets id
unfolding lookup
IsKnown-none markets name id h = cc

-- Whatever the model answers, the relations that come of it name markets that it was asked about.
pub infer-RelationsKnown :
    (D : Type 0) {F E : Type 0} (new_id : ℕ → RelationId) (now : Time) (ttl : ℕ)
    (complete : List MarketSummary → Result (List (RawRelation F)) E) (markets : List MarketSummary)
    → IfOk (RelationsKnown markets) (infer {D = D} new_id now ttl complete markets)
unfolding infer parse_response
infer-RelationsKnown D new_id now ttl complete markets =
    let names = id_map_from 1 markets [] in
    elim (Bool-cases (ltb (length markets) 2)) [
      | inl e ↦ rw (e, infer) tt
      | inr e ↦ elim (Result-cases (complete markets)) [
        | inr (x, f) ↦ rw (e, f, infer, parse_response) tt
        | inl (raw, f) ↦
            rw (e, f, infer, parse_response)
              (RelationsKnown-keep_mapped markets names
                (IsKnown-id_map markets 1 markets [] (IsKnown-self markets) (IsKnown-none markets))
                D new_id now ttl 0 raw)
      ]
    ]
