-- ===== src/Subscription/Expand.antt =====
-- Expansion stays within the maximum.
use edgelord.Common.{
  ℕ, zero, suc, ◌+◌, ◌≤◌, ◌≡◌, ◌⊎◌, refl, sym, ◌∙◌, Bool, List, [], ◌∷◌, ◌++◌, arith, length,
  length-append, ltb, lookup, contains, Bool-cases, Option-cases, inl, inr, string_eq, set_insert,
}
use mathlib.Core.List.{append-nil, append_assoc}
use edgelord.Domain.Id.{TokenId, MarketId}
use edgelord.Subscription.Defs.{MarketScore, Manager, push, subscribe, expand_loop, expand}

-- What one expansion by at most `count` markets does to the state `m`, with `added` the new tokens.
pub record Expanded {S : Type 0} (count : ℕ) (m t : Manager S) (added : List TokenId) : Type 0 where
  pub tokens : t.active_tokens ≡ m.active_tokens ++ added
  pub known : t.market_tokens ≡ m.market_tokens
  pub same_max : t.max_subscriptions ≡ m.max_subscriptions
  pub few : length t.active_markets ≤ length m.active_markets + count
  pub within : (length t.active_tokens ≤ t.max_subscriptions) ⊎ (t.active_tokens ≡ m.active_tokens)

module _ {S : Type 0} (above : S → S → Bool) where
  abbrev Loop : ℕ → Manager S → List TokenId → Manager S × List TokenId → Type 0
  Loop left m newly r = (added : List TokenId) × (r.1 ≡ newly ++ added) × Expanded left m r.0 added

  Loop-idle :
      (left : ℕ) (m : Manager S) (newly : List TokenId) (rest : List (MarketScore S))
      → Loop left m newly (record m { pending = rest }, newly)
  Loop-idle left m newly rest = (
    [],
    sym (append-nil newly),
    record {
      tokens = sym (append-nil m.active_tokens);
      known = refl;
      same_max = refl;
      few = omega arith;
      within = inr refl;
    },
  )

  length-set_insert :
      (id : MarketId) (ids : List MarketId) → length (set_insert id ids).0 ≤ length ids + 1
  unfolding set_insert
  length-set_insert id ids = ground arith

  Loop-subscribe :
      (left : ℕ) (id : MarketId) (tokens newly : List TokenId) (m : Manager S)
      (r : Manager S × List TokenId)
      → length m.active_tokens + length tokens ≤ m.max_subscriptions
      → Loop left (subscribe id tokens m) (newly ++ tokens) r
      → Loop (suc left) m newly r
  Loop-subscribe left id tokens newly m r room (added, new, e) = (
    tokens ++ added,
    new ∙ append_assoc newly tokens added,
    record {
      tokens = e.tokens ∙ append_assoc m.active_tokens tokens added;
      known = e.known;
      same_max = e.same_max;
      few = omega (arith, e.few, length-set_insert id m.active_markets);
      within = inl (within_from e.within);
    },
  )
    where
      within_from :
          (length r.0.active_tokens ≤ r.0.max_subscriptions)
            ⊎ (r.0.active_tokens ≡ m.active_tokens ++ tokens)
          → length r.0.active_tokens ≤ r.0.max_subscriptions
      within_from (inl h) = h
      within_from (inr same) =
          rw same (omega (arith, room, e.same_max, length-append m.active_tokens tokens))

  Loop-expand_loop :
      (left : ℕ) (pending : List (MarketScore S)) (m : Manager S) (newly : List TokenId)
      → Loop left m newly (expand_loop above left pending m newly)
  unfolding expand_loop
  Loop-expand_loop left [] m newly = Loop-idle left m newly []
  Loop-expand_loop zero (score ∷ rest) m newly = Loop-idle zero m newly (score ∷ rest)
  Loop-expand_loop (suc left) (score ∷ rest) m newly =
      elim (Bool-cases (contains score.market_id m.active_markets)) [
        | inl e ↦ rw (e, expand_loop) (Loop-expand_loop (suc left) rest m newly)
        | inr e ↦ elim (Option-cases (lookup score.market_id m.market_tokens)) [
          | inl f ↦ rw (e, f, expand_loop) (Loop-expand_loop (suc left) rest m newly)
          | inr (tokens, f) ↦
              elim (Bool-cases (ltb m.max_subscriptions (length m.active_tokens + length tokens))) [
                | inl g ↦
                    rw (e, f, g, expand_loop) (Loop-idle (suc left) m newly (push above score rest))
                | inr g ↦
                    rw (e, f, g, expand_loop)
                      (Loop-subscribe left score.market_id tokens newly m _ (ground arith) (
                        Loop-expand_loop left rest (subscribe score.market_id tokens m)
                          (newly ++ tokens)))
              ]
        ]
      ]

  -- `expand` puts exactly the tokens that it returns behind those that are active, adds at most
  -- `count` markets and leaves the mapping and the maximum alone. Afterwards the number of active
  -- tokens is within the maximum, or they are those from before.
  pub expand-Expanded :
      (count : ℕ) (m : Manager S)
      → Expanded count m (expand above count m).0 (expand above count m).1
  unfolding expand
  expand-Expanded count m = let (added, new, e) = Loop-expand_loop count m.pending m [] in rw new e
