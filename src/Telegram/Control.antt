-- ===== src/Telegram/Control.antt =====
-- src/adapter/outbound/notifier/telegram/control.rs with control/dispatch.rs, mutate.rs, render.rs and
-- runtime.rs: what a command does and what it answers. A reply holds the values that the source writes
-- into the text of the message; the summary of the day's statistics, the uptime and the build's version
-- are other components'.
use Prim.Native.String.{◌++◌ as append, len, slice}
use edgelord.Common.{
  ℕ, ◌-◌, Bool, not, ◌&&◌, List, [], ◌∷◌, map, String, Option, none, some, length, ltb, ◌==◌,
  string_eq, if◌then◌else◌,
}
use edgelord.Money.{Decimal, ◌⊕◌, ◌≤?◌}
use edgelord.Domain.Id.{MarketId}
use edgelord.Domain.Relation.{
  Cluster, RelationKind, implies, mutually_exclusive, exactly_one, linear,
}
use edgelord.Exchange.Pool.{take}
use edgelord.Exchange.Pool.Connections.{PoolStats}
use edgelord.State.{
  AppState, RiskLimits, RiskLimitKind, RiskLimitUpdateError, RuntimePosition, exposure,
  pending_execution_count,
}
use edgelord.Tracker.{open_count}
use edgelord.Telegram.Command.{CommandParseError}

pub record RuntimeStats (D F : Type 0) : Type 0 where
  pub pool_stats : Option PoolStats
  pub market_count : ℕ
  pub token_count : ℕ
  pub cluster_view : Option (List (Cluster D F))

module _ {D F : Type 0} where
  unfoldable pub update_pool_stats : PoolStats → RuntimeStats D F → RuntimeStats D F
  update_pool_stats s r = record r { pool_stats = some s }

  unfoldable pub update_market_counts : ℕ → ℕ → RuntimeStats D F → RuntimeStats D F
  update_market_counts markets tokens r = record r { market_count = markets; token_count = tokens }

  unfoldable pub set_cluster_cache : List (Cluster D F) → RuntimeStats D F → RuntimeStats D F
  set_cluster_cache view r = record r { cluster_view = some view }

pub record StatusView (D : Type 0) : Type 0 where
  pub is_paused : Bool
  pub breaker : String
  pub open_positions : ℕ
  pub total_exposure : D
  pub pending_exposure : D
  pub pending_executions : ℕ
  pub limits : RiskLimits D

pub record HealthView (D : Type 0) : Type 0 where
  pub healthy : Bool
  pub breaker_ok : Bool
  pub breaker_detail : String
  pub exposure_ok : Bool
  pub total_exposure : D
  pub slippage_ok : Bool
  pub limits : RiskLimits D

pub record ClusterView : Type 0 where
  pub market_total : ℕ
  pub relation_types : List String
  pub market_ids : List String
  pub more_markets : ℕ

pub data Reply (D S : Type 0) : Type 0 where
  command_help : Reply D S
  status_of : StatusView D → Reply D S
  health_of : HealthView D → Reply D S
  no_positions : Reply D S
  positions_of : (total : ℕ) (shown : List (RuntimePosition D)) (more : ℕ) → Reply D S
  stats_of : Option S → Reply D S
  no_pool : Reply D S
  pool_not_initialized : Reply D S
  pool_of : PoolStats → Reply D S
  no_market_stats : Reply D S
  no_markets : Reply D S
  markets_of : (markets tokens : ℕ) (clusters : List ClusterView) (more : ℕ) → Reply D S
  version_of : Reply D S
  already_paused : (reason : String) → Reply D S
  trading_paused : Reply D S
  already_active : Reply D S
  trading_resumed : Reply D S
  limit_updated : RiskLimitKind → D → RiskLimits D → Reply D S
  limit_refused : RiskLimitKind → RiskLimitUpdateError → Reply D S
  invalid_command : CommandParseError → Reply D S

-- `Option::unwrap_or_else`.
abbrev pub or_else : String → Option String → String
or_else d none = d
or_else d (some s) = s

-- A long identifier is cut; its bytes are taken to be characters, as in the identifiers of the
-- exchange.
unfoldable pub shortened : ℕ → MarketId → String
shortened limit id = if ltb limit (len id) then append (slice id 0 limit) "..." else id

-- `Vec::dedup`.
unfoldable pub dedup : List String → List String
dedup [] = []
dedup (a ∷ []) = a ∷ []
dedup (a ∷ b ∷ rest) = let left = dedup (b ∷ rest) in if a == b then left else a ∷ left

unfoldable pub relation_type : {D : Type 0} → RelationKind D → String
relation_type (mutually_exclusive ms) = "Mutually Exclusive"
relation_type (implies a b) = "Implies"
relation_type (exactly_one ms) = "Exactly One"
relation_type (linear terms sense rhs) = "Linear"

module _ {D F : Type 0} where
  unfoldable pub cluster_view_of : Cluster D F → ClusterView
  cluster_view_of c = record {
    market_total = length c.markets;
    relation_types = dedup (map (λ r. relation_type r.kind) c.relations);
    market_ids = map (shortened 16) (take 5 c.markets);
    more_markets = length c.markets - 5;
  }

module _ {D : Type 0} ⦃d : Decimal D⦄ where
  unfoldable pub status_view : AppState D → StatusView D
  status_view s = record {
    is_paused = s.circuit_breaker;
    breaker = if s.circuit_breaker then or_else "unknown" s.circuit_breaker_reason else "inactive";
    open_positions = open_count s.positions;
    total_exposure = exposure s;
    pending_exposure = s.pending_exposure;
    pending_executions = pending_execution_count s;
    limits = s.risk_limits;
  }

  unfoldable pub health_view : AppState D → HealthView D
  health_view s =
      let total = exposure s ⊕ s.pending_exposure in
      let exposure_ok = total ≤? s.risk_limits.max_total_exposure in
      let breaker_ok = not s.circuit_breaker in
      let slippage_ok =
        (d.nought ≤? s.risk_limits.max_slippage) && (s.risk_limits.max_slippage ≤? d.one) in
      record {
        healthy = exposure_ok && breaker_ok && slippage_ok;
        breaker_ok = breaker_ok;
        breaker_detail =
            if breaker_ok then "inactive" else or_else "active" s.circuit_breaker_reason;
        exposure_ok = exposure_ok;
        total_exposure = total;
        slippage_ok = slippage_ok;
        limits = s.risk_limits;
      }
