-- ===== src/Subscription/Defs.antt =====
-- `PrioritySubscriptionManager` (src/infrastructure/subscription/priority.rs and its children). The
-- queue is the standard library's binary heap: `pending` lists what `pop` gives, in that order, where
-- among equal scores the one pushed first comes first: a choice of the model, where the heap promises
-- none, on which nothing that is proved depends. A score is of any type with an order `above`,
-- for the floating-point `composite`.
use edgelord.Common.{
  ℕ, zero, suc, ◌+◌, Bool, true, false, List, [], ◌∷◌, ◌++◌, Option, none, some, if◌then◌else◌, ltb,
  length, filter, any, lookup, insert, contains, set_insert, string_eq,
}
use Prim.Native.Nat.{min}
use edgelord.Domain.Id.{TokenId, MarketId}

pub record MarketScore (S : Type 0) : Type 0 where
  pub market_id : MarketId
  pub composite : S

pub record Manager (S : Type 0) : Type 0 where
  pub pending : List (MarketScore S)
  pub active_markets : List MarketId
  pub active_tokens : List TokenId
  pub market_tokens : List (MarketId × List TokenId)
  pub max_subscriptions : ℕ

module _ {S : Type 0} where
  abbrev pub new : ℕ → Manager S
  new max = record {
    pending = [];
    active_markets = [];
    active_tokens = [];
    market_tokens = [];
    max_subscriptions = max;
  }

  unfoldable pub register_market_tokens : MarketId → List TokenId → Manager S → Manager S
  register_market_tokens id tokens m = record m { market_tokens = insert id tokens m.market_tokens }

  abbrev pub is_subscribed : MarketId → Manager S → Bool
  is_subscribed id m = contains id m.active_markets

  -- The subscription to a market: it becomes active, with its tokens at the end.
  abbrev pub subscribe : MarketId → List TokenId → Manager S → Manager S
  subscribe id tokens m = record m {
    active_markets = (set_insert id m.active_markets).0;
    active_tokens = m.active_tokens ++ tokens;
  }

module _ {S : Type 0} (above : S → S → Bool) where
  -- `BinaryHeap::push`.
  unfoldable pub push : MarketScore S → List (MarketScore S) → List (MarketScore S)
  push score [] = score ∷ []
  push score (top ∷ rest) =
      if above score.composite top.composite then score ∷ top ∷ rest else top ∷ push score rest

  unfoldable pub enqueue : List (MarketScore S) → Manager S → Manager S
  enqueue [] m = m
  enqueue (score ∷ scores) m = enqueue scores (
      if contains score.market_id m.active_markets
      then m
      else record m { pending = push score m.pending })

  -- The loop of `expand`: `left` is how many markets may still be added, the list is the queue, and
  -- the last argument `newly_subscribed`.
  unfoldable pub expand_loop :
      ℕ → List (MarketScore S) → Manager S → List TokenId → Manager S × List TokenId
  expand_loop left [] m newly = (record m { pending = [] }, newly)
  expand_loop zero (score ∷ rest) m newly = (record m { pending = score ∷ rest }, newly)
  expand_loop (suc left) (score ∷ rest) m newly = elim (contains score.market_id m.active_markets) [
    | true ↦ expand_loop (suc left) rest m newly
    | false ↦ elim (lookup score.market_id m.market_tokens) [
      | none ↦ expand_loop (suc left) rest m newly
      | some tokens ↦ elim (ltb m.max_subscriptions (length m.active_tokens + length tokens)) [
        | true ↦ (record m { pending = push score rest }, newly)
        | false ↦ expand_loop left rest (subscribe score.market_id tokens m) (newly ++ tokens)
      ]
    ]
  ]

  unfoldable pub expand : ℕ → Manager S → Manager S × List TokenId
  unfolding expand_loop
  expand count m = expand_loop count m.pending m []

-- `Vec::pop`: the list without its last element, and that element.
unfoldable pub pop : List TokenId → Option (List TokenId × TokenId)
pop [] = none
pop (t ∷ ts) = elim (pop ts) [ none ↦ some ([], t) | some (rest, last) ↦ some (t ∷ rest, last) ]

-- The `while` of `contract`, with `removed_tokens`.
unfoldable pub pop_tokens : ℕ → List TokenId → List TokenId → List TokenId × List TokenId
unfolding pop
pop_tokens zero tokens removed = (tokens, removed)
pop_tokens (suc n) tokens removed = elim (pop tokens) [
  | none ↦ (tokens, removed)
  | some (rest, last) ↦ pop_tokens n rest (removed ++ (last ∷ []))
]

-- The markets that stay active: those with a token that is active.
abbrev pub stays : List (MarketId × List TokenId) → List TokenId → MarketId → Bool
stays market_tokens active id = elim (lookup id market_tokens) [
  | none ↦ false
  | some tokens ↦ any (λ t. contains t active) tokens
]

module _ {S : Type 0} where
  unfoldable pub contract : ℕ → Manager S → Manager S × List TokenId
  unfolding pop_tokens
  contract count m =
      let (active, removed) = pop_tokens (min count (length m.active_tokens)) m.active_tokens [] in
      (
        record m {
          active_tokens = active;
          active_markets = filter (stays m.market_tokens active) m.active_markets;
        },
        removed,
      )
