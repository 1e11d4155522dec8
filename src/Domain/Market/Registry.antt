-- ===== src/Domain/Market/Registry.antt =====
-- src/domain/market.rs: `Market` and `MarketRegistry`.
use edgelord.Common.{
  ℕ, Bool, List, [], ◌∷◌, ◌++◌, map, String, Option, none, some, Result, ok, err, ◌==◌, string_eq,
  is_empty, if◌then◌else◌, length, leb, nat_beq, filter, lookup, insert, keys,
}
use edgelord.Money.{Decimal, ◌≤?◌}
use edgelord.Domain.Id.{TokenId, MarketId}
use edgelord.Domain.Error.{DomainError, empty_outcomes, non_positive_payout}

pub record Outcome : Type 0 where
  pub token_id : TokenId
  pub name : String

pub record Market (D : Type 0) : Type 0 where
  pub market_id : MarketId
  pub question : String
  pub outcomes : List Outcome
  pub payout : D

-- The search of `outcome_by_name`, over `str::to_lowercase`.
unfoldable pub find_by_name : (String → String) → String → List Outcome → Option Outcome
find_by_name lower name [] = none
find_by_name lower name (o ∷ os) =
    if lower o.name == lower name then some o else find_by_name lower name os

module _ {D : Type 0} where
  abbrev pub new : MarketId → String → List Outcome → D → Market D
  new market_id question outcomes payout = record {
    market_id = market_id;
    question = question;
    outcomes = outcomes;
    payout = payout;
  }

  unfoldable pub try_new :
      ⦃d : Decimal D⦄ → MarketId → String → List Outcome → D → Result (Market D) (DomainError D)
  try_new ⦃d⦄ market_id question outcomes payout =
      if is_empty outcomes
      then err empty_outcomes
      else if payout ≤? d.nought
      then err (non_positive_payout payout)
      else ok (new market_id question outcomes payout)

  abbrev pub outcome_count : Market D → ℕ
  outcome_count m = length m.outcomes

  abbrev pub is_binary : Market D → Bool
  is_binary m = nat_beq (length m.outcomes) 2

  abbrev pub token_ids : Market D → List TokenId
  token_ids m = map (λ o. o.token_id) m.outcomes

  abbrev pub outcome_by_name : (String → String) → Market D → String → Option Outcome
  outcome_by_name lower m name = find_by_name lower name m.outcomes

pub record MarketRegistry (D : Type 0) : Type 0 where
  pub token_to_market : List (TokenId × Market D)
  pub market_id_to_market : List (MarketId × Market D)
  pub markets : List (Market D)

module _ {D : Type 0} where
  abbrev pub empty : MarketRegistry D
  empty = record { token_to_market = []; market_id_to_market = []; markets = [] }

  -- The loop of `add` over the outcomes.
  unfoldable pub index_outcomes :
      Market D → List Outcome → List (TokenId × Market D) → List (TokenId × Market D)
  index_outcomes m [] index = index
  index_outcomes m (o ∷ os) index = index_outcomes m os (insert o.token_id m index)

  unfoldable pub add : MarketRegistry D → Market D → MarketRegistry D
  add r m = record {
    market_id_to_market = insert m.market_id m r.market_id_to_market;
    token_to_market = index_outcomes m m.outcomes r.token_to_market;
    markets = r.markets ++ (m ∷ []);
  }

  unfoldable pub get_by_market_id : MarketRegistry D → MarketId → Option (Market D)
  get_by_market_id r id = lookup id r.market_id_to_market

  unfoldable pub get_by_token : MarketRegistry D → TokenId → Option (Market D)
  get_by_token r t = lookup t r.token_to_market

  abbrev pub binary_markets : MarketRegistry D → List (Market D)
  binary_markets r = filter (λ m. nat_beq (outcome_count m) 2) r.markets

  abbrev pub multi_outcome_markets : MarketRegistry D → List (Market D)
  multi_outcome_markets r = filter (λ m. leb 3 (outcome_count m)) r.markets

  abbrev pub all_token_ids : MarketRegistry D → List TokenId
  all_token_ids r = keys r.token_to_market
