-- ===== src/Domain/Market/Lookup.antt =====
-- What `MarketRegistry` finds after markets have been added.
use edgelord.Common.{
  ◌≡◌, refl, List, [], ◌∷◌, map, some, ◌==◌, string_eq, if◌then◌else◌, arith, lookup, insert,
  lookup-insert, contains, contains,
}
use edgelord.Domain.Id.{TokenId, MarketId}
use edgelord.Domain.Market.Registry.{
  Outcome, Market, MarketRegistry, index_outcomes, add, get_by_token, get_by_market_id, token_ids,
}

module _ {D : Type 0} where
  lookup-index_outcomes :
      (m : Market D) (os : List Outcome) (index : List (TokenId × Market D)) (t : TokenId)
      → lookup t (index_outcomes m os index)
        ≡ (if contains t (map (λ o. o.token_id) os) then some m else lookup t index)
  unfolding index_outcomes contains
  lookup-index_outcomes m [] index t = refl
  lookup-index_outcomes m (o ∷ os) index t = ground (
    arith,
    lookup-index_outcomes m os (insert o.token_id m index) t,
    lookup-insert o.token_id t m index,
  )

  -- After `add`, the tokens of the market lead to it, and every other token to what it led to
  -- before; so does the identifier of the market, and every other identifier.
  pub get-add :
      (r : MarketRegistry D) (m : Market D) (t : TokenId) (id : MarketId)
      → (get_by_token (add r m) t ≡ (if contains t (token_ids m) then some m else get_by_token r t))
        × (get_by_market_id (add r m) id
            ≡ (if m.market_id == id then some m else get_by_market_id r id))
  unfolding add get_by_token get_by_market_id
  get-add r m t id = (
    lookup-index_outcomes m m.outcomes r.token_to_market t,
    lookup-insert m.market_id id m r.market_id_to_market,
  )
