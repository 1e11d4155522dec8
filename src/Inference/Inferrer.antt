-- ===== src/Inference/Inferrer.antt =====
-- src/adapter/outbound/inference/inferrer.rs, from the answer of the model on, with `MarketSummary` of
-- src/port/outbound/inference.rs. The reading of JSON is serde's and a parameter; so are the clock and
-- the identifiers, which the source generates at random.
use Prim.Native.String.{◌++◌ as append}
use edgelord.Common.{
  ℕ, suc, ◌+◌, List, [], ◌∷◌, String, Option, none, some, Result, ok, err, ◌>>=◌, ◌==◌, string_eq,
  lookup, insert, ltb, length, if◌then◌else◌,
}
use edgelord.Domain.Id.{MarketId, RelationId, Time}
use edgelord.Domain.Relation.{Relation, RelationKind, implies, mutually_exclusive, exactly_one}
use edgelord.Polymarket.Dedup.{show_count}

pub record MarketSummary : Type 0 where
  pub id : MarketId
  pub question : String
  pub outcomes : List String

pub record RawRelation (F : Type 0) : Type 0 where
  pub kind : String
  pub if_yes : Option String
  pub then_yes : Option String
  pub markets : Option (List String)
  pub confidence : F
  pub reasoning : String

-- `id_map`: the names that the prompt gives to the markets.
abbrev pub IdMap : Type 0
IdMap = List (String × MarketId)

abbrev pub market_name : ℕ → String
market_name i = append "M" (show_count i)

-- From the market number `i` on; a name that comes again replaces.
unfoldable pub id_map_from : ℕ → List MarketSummary → IdMap → IdMap
id_map_from i [] ids = ids
id_map_from i (m ∷ ms) ids = id_map_from (suc i) ms (insert (market_name i) m.id ids)

-- `collect` of the markets into an `Option`.
unfoldable pub mapped : IdMap → List String → Option (List MarketId)
mapped ids [] = some []
mapped ids (name ∷ names) = elim (lookup name ids) [
  | none ↦ none
  | some id ↦ elim (mapped ids names) [ none ↦ none | some rest ↦ some (id ∷ rest) ]
]

-- The `?` on the field, and the lookup of its name.
abbrev pub named : IdMap → Option String → Option MarketId
named ids none = none
named ids (some name) = lookup name ids

abbrev pub all_named : IdMap → Option (List String) → Option (List MarketId)
all_named ids none = none
all_named ids (some names) = mapped ids names

module _ {D F : Type 0} where
  -- The source tells an unknown type (`Some(None)`) from a missing market (`None`); `parse_response`
  -- leaves out both.
  unfoldable pub into_kind_mapped : IdMap → RawRelation F → Option (RelationKind D)
  into_kind_mapped ids r =
      if r.kind == "implies"
      then (named ids r.if_yes >>= λ a. named ids r.then_yes >>= λ b. some (implies a b))
      else if r.kind == "mutually_exclusive"
      then (all_named ids r.markets >>= λ ms. some (mutually_exclusive ms))
      else if r.kind == "exactly_one"
      then (all_named ids r.markets >>= λ ms. some (exactly_one ms))
      else none

  abbrev pub relation_of : RelationId → Time → ℕ → RawRelation F → RelationKind D → Relation D F
  relation_of id now ttl r kind = record {
    id = id;
    kind = kind;
    confidence = r.confidence;
    reasoning = r.reasoning;
    inferred_at = now;
    expires_at = now + ttl;
  }

  -- `filter_map`, with the identifiers for the relations from the number `n` on.
  unfoldable pub keep_mapped :
      (ids : ℕ → RelationId)
      → Time
      → (ttl : ℕ) → IdMap
      → ℕ
      → List (RawRelation F)
      → List (Relation D F)
  keep_mapped ids now ttl names n [] = []
  keep_mapped ids now ttl names n (r ∷ rs) =
      let rest = keep_mapped ids now ttl names (suc n) rs in
      elim (into_kind_mapped names r) [
        | none ↦ rest
        | some kind ↦ relation_of (ids n) now ttl r kind ∷ rest
      ]

  -- `parse_response`, with the raw relations that serde reads in the answer, or its error.
  unfoldable pub parse_response :
      {E : Type 0}
      → (ids : ℕ → RelationId) → Time
      → (ttl : ℕ) → Result (List (RawRelation F)) E
      → List MarketSummary
      → Result (List (Relation D F)) E
  parse_response ids now ttl (err e) markets = err e
  parse_response ids now ttl (ok raw) markets =
      ok (keep_mapped ids now ttl (id_map_from 1 markets []) 0 raw)

  -- `infer`: `complete` is the model's answer to the prompt for these markets, read as JSON.
  unfoldable pub infer :
      {E : Type 0}
      → (ids : ℕ → RelationId) → Time
      → (ttl : ℕ) → (complete : List MarketSummary → Result (List (RawRelation F)) E)
      → List MarketSummary
      → Result (List (Relation D F)) E
  infer ids now ttl complete markets =
      if ltb (length markets) 2
      then ok []
      else parse_response ids now ttl (complete markets) markets
