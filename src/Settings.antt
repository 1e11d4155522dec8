-- ===== src/Settings.antt =====
-- src/infrastructure/config/settings.rs with the parts it checks of risk.rs, pool.rs, governor.rs and
-- cluster.rs beside it. An `f64` is a number of a type `F`. What `Config::validate` never reads is left out.
pub mod Validated
use Prim.Native.String.{String}
use edgelord.Common.{
  ℕ, Bool, true, false, ◌||◌, ◌&&◌, not, ok, err, Done, leb, ltb, nat_beq, if◌then◌else◌,
}
use edgelord.Money.{Decimal, ◌<?◌, ◌≤?◌}
use edgelord.State.{RiskLimits}
use edgelord.Exchange.Reconnecting
use edgelord.Exchange.Pool.{ConfigError, missing_field, invalid_value}

pub data Environment : Type 0 where
  testnet : Environment
  mainnet : Environment

pub record NetworkConfig : Type 0 where
  pub environment : Environment
  pub ws_url : String
  pub api_url : String
  pub chain_id : ℕ

pub record RiskConfig (D : Type 0) : Type 0 where
  pub max_position_per_market : D
  pub max_total_exposure : D
  pub min_profit_threshold : D
  pub max_slippage : D
  pub execution_timeout_secs : ℕ

pub record ReconnectionConfig (F : Type 0) : Type 0 where
  pub initial_delay_ms : ℕ
  pub max_delay_ms : ℕ
  pub backoff_multiplier : F
  pub max_consecutive_failures : ℕ
  pub circuit_breaker_cooldown_ms : ℕ

pub record LatencyTargetsConfig : Type 0 where
  pub target_p50_ms : ℕ
  pub target_p95_ms : ℕ
  pub target_p99_ms : ℕ
  pub max_p99_ms : ℕ

pub record ScalingAppConfig (F : Type 0) : Type 0 where
  pub check_interval_secs : ℕ
  pub expand_threshold : F
  pub contract_threshold : F
  pub expand_step : ℕ
  pub contract_step : ℕ
  pub cooldown_secs : ℕ

pub record ClusterDetectionConfig (D : Type 0) : Type 0 where
  pub enabled : Bool
  pub debounce_ms : ℕ
  pub min_gap : D
  pub max_clusters_per_cycle : ℕ
  pub channel_capacity : ℕ

-- The constants and the order tests of `f64`.
pub record Float (F : Type 0) : Type 0 where
  pub zero : F  -- 0.0
  pub one : F  -- 1.0
  pub lt : F → F → Bool
  pub le : F → F → Bool

pub record GovernorAppConfig (F : Type 0) : Type 0 where
  pub enabled : Bool
  pub latency : LatencyTargetsConfig
  pub scaling : ScalingAppConfig F

-- Of the settings of the exchange, those that `network` takes.
pub record PolymarketConfig : Type 0 where
  pub environment : Environment
  pub ws_url : String
  pub api_url : String
  pub chain_id : ℕ

pub data ExchangeSpecificConfig : Type 0 where
  polymarket : (config : PolymarketConfig) → ExchangeSpecificConfig

abbrev pub network : ExchangeSpecificConfig → NetworkConfig
network (polymarket c) = record {
  environment = c.environment;
  ws_url = c.ws_url;
  api_url = c.api_url;
  chain_id = c.chain_id;
}

pub record Config (D F : Type 0) : Type 0 where
  pub exchange_config : ExchangeSpecificConfig
  pub risk : RiskConfig D
  pub reconnection : ReconnectionConfig F
  pub governor : GovernorAppConfig F
  pub cluster_detection : ClusterDetectionConfig D

-- `impl From<RiskConfig> for RiskLimits`.
abbrev pub limits_from : {D : Type 0} → RiskConfig D → RiskLimits D
limits_from c = record {
  max_position_per_market = c.max_position_per_market;
  max_total_exposure = c.max_total_exposure;
  min_profit_threshold = c.min_profit_threshold;
  max_slippage = c.max_slippage;
  execution_timeout_secs = c.execution_timeout_secs;
}

-- The same configuration as the reconnecting stream uses it, given the product with an `f64`.
abbrev pub stream_config :
    {F : Type 0} → (F → ℕ → ℕ) → ReconnectionConfig F → Reconnecting.ReconnectionConfig
stream_config times c = record {
  initial_delay_ms = c.initial_delay_ms;
  max_delay_ms = c.max_delay_ms;
  backoff_multiplier = times c.backoff_multiplier;
  max_consecutive_failures = c.max_consecutive_failures;
  circuit_breaker_cooldown_ms = c.circuit_breaker_cooldown_ms;
}

-- An early return of an error.
abbrev pub refuse_if : Bool → ConfigError → Done ConfigError → Done ConfigError
refuse_if refused e rest = if refused then err e else rest

abbrev is_blank : String → Bool
is_blank String.[] = true
is_blank (String.◌∷◌ c s) = false

-- The parts of `validate`; each goes on with the rest.
unfoldable pub validate_network : NetworkConfig → Done ConfigError → Done ConfigError
validate_network c rest =
    refuse_if (is_blank c.ws_url) (missing_field "ws_url")
      (refuse_if (is_blank c.api_url) (missing_field "api_url") rest)

unfoldable pub validate_latency : LatencyTargetsConfig → Done ConfigError → Done ConfigError
validate_latency c rest =
    refuse_if
      (nat_beq c.target_p50_ms 0
        || nat_beq c.target_p95_ms 0
        || nat_beq c.target_p99_ms 0
        || nat_beq c.max_p99_ms 0)
      (invalid_value "latency_targets" "latency targets must be greater than 0")
      (refuse_if
        (not (
          leb c.target_p50_ms c.target_p95_ms
          && leb c.target_p95_ms c.target_p99_ms
          && leb c.target_p99_ms c.max_p99_ms))
        (invalid_value "latency_targets" "targets must be ordered p50 <= p95 <= p99 <= max_p99")
        rest)

module _ {D : Type 0} ⦃d : Decimal D⦄ where
  unfoldable pub validate_risk : RiskConfig D → Done ConfigError → Done ConfigError
  validate_risk c rest =
      refuse_if ((c.max_slippage <? d.nought) || (d.one <? c.max_slippage))
        (invalid_value "max_slippage" "must be between 0 and 1")
        (refuse_if (c.max_position_per_market ≤? d.nought)
          (invalid_value "max_position_per_market" "must be greater than 0")
          (refuse_if (c.max_total_exposure ≤? d.nought)
            (invalid_value "max_total_exposure" "must be greater than 0")
            (refuse_if (c.min_profit_threshold <? d.nought)
              (invalid_value "min_profit_threshold" "must be 0 or greater") rest)))

  unfoldable pub validate_clusters : ClusterDetectionConfig D → Done ConfigError
  validate_clusters c =
      if c.enabled
      then refuse_if (nat_beq c.debounce_ms 0)
          (invalid_value "debounce_ms" "must be greater than 0")
          (refuse_if ((c.min_gap <? d.nought) || (d.one <? c.min_gap))
            (invalid_value "min_gap" "must be between 0 and 1")
            (refuse_if (nat_beq c.max_clusters_per_cycle 0)
              (invalid_value "max_clusters_per_cycle" "must be greater than 0")
              (refuse_if (nat_beq c.channel_capacity 0)
                (invalid_value "channel_capacity" "must be greater than 0") (ok tt))))
      else ok tt

module _ {F : Type 0} (f : Float F) where
  unfoldable pub validate_reconnection : ReconnectionConfig F → Done ConfigError → Done ConfigError
  validate_reconnection c rest =
      refuse_if (nat_beq c.initial_delay_ms 0)
        (invalid_value "initial_delay_ms" "must be greater than 0")
        (refuse_if (ltb c.max_delay_ms c.initial_delay_ms)
          (invalid_value "max_delay_ms" "must be >= initial_delay_ms")
          (refuse_if (f.lt c.backoff_multiplier f.one)
            (invalid_value "backoff_multiplier" "must be >= 1.0")
            (refuse_if (nat_beq c.max_consecutive_failures 0)
              (invalid_value "max_consecutive_failures" "must be greater than 0")
              (refuse_if (nat_beq c.circuit_breaker_cooldown_ms 0)
                (invalid_value "circuit_breaker_cooldown_ms" "must be greater than 0") rest))))

  unfoldable pub validate_scaling : ScalingAppConfig F → Done ConfigError → Done ConfigError
  validate_scaling c rest =
      refuse_if
        (nat_beq c.check_interval_secs 0
          || nat_beq c.expand_step 0
          || nat_beq c.contract_step 0
          || nat_beq c.cooldown_secs 0)
        (invalid_value "scaling_config" "interval/steps/cooldown must be greater than 0")
        (refuse_if (f.le c.expand_threshold f.zero || f.le c.contract_threshold f.zero)
          (invalid_value "scaling_config" "thresholds must be greater than 0") rest)

module _ {D F : Type 0} ⦃d : Decimal D⦄ (f : Float F) where
  unfoldable pub validate : Config D F → Done ConfigError
  validate c = validate_network (network c.exchange_config) (
      validate_risk c.risk (
        validate_reconnection f c.reconnection (
          validate_latency c.governor.latency
            (validate_scaling f c.governor.scaling (validate_clusters c.cluster_detection)))))
