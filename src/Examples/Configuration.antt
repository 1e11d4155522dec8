-- ===== src/Examples/Configuration.antt =====
-- A configuration near the defaults, with percents for the numbers of type `f64`.
use edgelord.Common.{◌≡◌, refl, true, ok, err, []}
use edgelord.Common.{◌∷◌, ltb, leb, ℕ, ◌*◌, ◌/◌}
use edgelord.Common.Int.{ℤ, pos}
use edgelord.Money.Cents.{cents}
use edgelord.State.Limits.{AreValid}
use edgelord.Exchange.Pool.{invalid_value}
use edgelord.Exchange.Reconnecting.{new, subscribe}
use edgelord.Exchange.Reconnecting.Invariant.{Inv, here, subscribing}
use edgelord.Examples.Reconnection.{link, world}
use edgelord.Settings.{
  Config, Float, testnet, polymarket, limits_from, stream_config, validate_network, validate_risk,
  validate_reconnection, validate_latency, validate_scaling, validate_clusters, validate,
}
use edgelord.Settings.Validated.{validate_starts}

abbrev percents : Float ℕ
percents = record { zero = 0; one = 100; lt = ltb; le = leb }

abbrev times : ℕ → ℕ → ℕ
times multiplier delay = multiplier * delay / 100

abbrev defaults : Config ℤ ℕ
defaults = record {
  exchange_config =
      polymarket
        (record { environment = testnet; ws_url = "wss"; api_url = "https"; chain_id = 80002 });
  risk = record {
    max_position_per_market = pos 100000;
    max_total_exposure = pos 1000000;
    min_profit_threshold = pos 5;
    max_slippage = pos 2;
    execution_timeout_secs = 30;
  };
  reconnection = record {
    initial_delay_ms = 1000;
    max_delay_ms = 60000;
    backoff_multiplier = 200;
    max_consecutive_failures = 10;
    circuit_breaker_cooldown_ms = 300000;
  };
  governor = record {
    enabled = true;
    latency = record {
      target_p50_ms = 10;
      target_p95_ms = 50;
      target_p99_ms = 100;
      max_p99_ms = 200;
    };
    scaling = record {
      check_interval_secs = 10;
      expand_threshold = 70;
      contract_threshold = 120;
      expand_step = 50;
      contract_step = 100;
      cooldown_secs = 60;
    };
  };
  cluster_detection = record {
    enabled = true;
    debounce_ms = 100;
    min_gap = pos 2;
    max_clusters_per_cycle = 50;
    channel_capacity = 1024;
  };
}

defaults_pass : validate percents defaults ≡ ok tt
unfolding validate validate_network validate_risk validate_reconnection validate_latency
    validate_scaling validate_clusters
defaults_pass = refl

no_debounce :
    validate percents (record defaults {
      cluster_detection = record defaults.cluster_detection { debounce_ms = 0 };
    })
    ≡ err (invalid_value "debounce_ms" "must be greater than 0")
unfolding validate validate_network validate_risk validate_reconnection validate_latency
    validate_scaling validate_clusters
no_debounce = refl

validate_starts_example :
    AreValid (limits_from defaults.risk)
    × Inv (subscribe link ("yes" ∷ []) (new world (stream_config times defaults.reconnection))).1
validate_starts_example =
    validate_starts percents link defaults times world defaults_pass (subscribing ("yes" ∷ []) here)
