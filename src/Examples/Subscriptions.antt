-- ===== src/Examples/Subscriptions.antt =====
-- A manager of five subscriptions with three queued markets.
use edgelord.Common.{ℕ, ◌≡◌, refl, Bool, [], ◌∷◌, String, ltb, true, contains, string_eq, ◌↔◌}
use edgelord.Subscription.Defs.{Manager, MarketScore, expand, contract}
use edgelord.Subscription.Expand.{Expanded, expand-Expanded}
use edgelord.Subscription.Contract.{contract_lem, HasTokenAmong}

abbrev above : ℕ → ℕ → Bool
above a b = ltb b a

abbrev queued : String → ℕ → MarketScore ℕ
queued id score = record { market_id = id; composite = score }

abbrev manager : Manager ℕ
manager = record {
  pending = queued "rain" 9 ∷ queued "snow" 7 ∷ queued "election" 5 ∷ [];
  active_markets = "sun" ∷ [];
  active_tokens = "s1" ∷ "s2" ∷ [];
  market_tokens =
      ("sun", "s1" ∷ "s2" ∷ [])
      ∷ ("rain", "yes" ∷ "no" ∷ [])
      ∷ ("election", "a" ∷ "b" ∷ "c" ∷ [])
      ∷ [];
  max_subscriptions = 5;
}

expand-Expanded_example : Expanded 3 manager (expand above 3 manager).0 (expand above 3 manager).1
expand-Expanded_example = expand-Expanded above 3 manager

contract_example :
    ((contract 1 manager).0.active_tokens ≡ "s1" ∷ [])
    × ((contract 1 manager).1 ≡ "s2" ∷ [])
    × ((id : String)
        → (contains id (contract 1 manager).0.active_markets ≡ true)
          ↔ ((contains id manager.active_markets ≡ true) × HasTokenAmong manager ("s1" ∷ []) id))
    × ((contract 1 manager).0.pending ≡ manager.pending)
    × ((contract 1 manager).0.market_tokens ≡ manager.market_tokens)
    × ((contract 1 manager).0.max_subscriptions ≡ 5)
contract_example = contract_lem manager ("s1" ∷ []) ("s2" ∷ []) refl
