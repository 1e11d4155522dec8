-- ===== src/Polymarket/Filter.antt =====
-- src/adapter/outbound/polymarket/filter.rs, over the ports of src/port/outbound/filter.rs and
-- src/port/outbound/exchange.rs. An `f64` is a number of any type with an order test.
use edgelord.Common.{
  ℕ, Bool, true, false, not, ◌&&◌, List, Option, none, some, String, length, filter, ltb, nat_beq,
  if◌then◌else◌,
}

pub record OutcomeInfo (F : Type 0) : Type 0 where
  pub token_id : String
  pub name : String
  pub price : Option F

pub record MarketInfo (F : Type 0) : Type 0 where
  pub id : String
  pub question : String
  pub outcomes : List (OutcomeInfo F)
  pub active : Bool
  pub volume_24h : Option F
  pub liquidity : Option F

pub record MarketFilterConfig (F : Type 0) : Type 0 where
  pub max_markets : ℕ
  pub max_subscriptions : ℕ
  pub min_volume_24h : F
  pub min_liquidity : F
  pub max_spread_pct : F
  pub include_binary : Bool
  pub include_multi_outcome : Bool
  pub max_outcomes : ℕ

module _ {F : Type 0} (lt : F → F → Bool) (c : MarketFilterConfig F) where
  -- `if let Some(value)` and the comparison with the minimum.
  abbrev falls_short : Option F → F → Bool
  falls_short none least = false
  falls_short (some value) least = lt value least

  unfoldable pub is_eligible : MarketInfo F → Bool
  is_eligible m =
      let outcome_count = length m.outcomes in
      let is_binary = nat_beq outcome_count 2 in
      if not m.active
      then false
      else if ltb c.max_outcomes outcome_count
      then false
      else if is_binary && not c.include_binary
      then false
      else if not is_binary && not c.include_multi_outcome
      then false
      else if falls_short m.volume_24h c.min_volume_24h
      then false
      else if falls_short m.liquidity c.min_liquidity
      then false
      else true

  unfoldable pub filter_markets : List (MarketInfo F) → List (MarketInfo F)
  filter_markets markets = filter is_eligible markets
