-- ===== src/Telegram/Dispatch.antt =====
-- `TelegramControl::execute` and its arms (control/dispatch.rs, control/mutate.rs, control/render.rs in
-- src/adapter/outbound/notifier/telegram), and `command_response_for_message` of auth.rs.
use edgelord.Common.{
  ℕ, ◌-◌, not, ◌&&◌, List, [], map, Option, none, some, Result, ok, err, length, is_empty, nat_beq,
  if◌then◌else◌,
}
use edgelord.Money.{Decimal}
use edgelord.Exchange.Pool.{take}
use edgelord.State.{
  AppState, RiskLimitKind, RuntimePosition, set_risk_limit, activate_circuit_breaker,
  reset_circuit_breaker, active_positions,
}
use edgelord.Telegram.Text.{Text}
use edgelord.Telegram.Command.{
  TelegramCommand, start, help, status, health, positions, stats, pool, markets, version, pause,
  resume, set_risk, CommandParseError, not_a_command, parse_command,
}
use edgelord.Domain.Relation.{Cluster}
use edgelord.Telegram.Control.{
  RuntimeStats, Reply, command_help, status_of, health_of, no_positions, positions_of, stats_of,
  no_pool, pool_not_initialized, pool_of, no_market_stats, no_markets, markets_of, version_of,
  already_paused, trading_paused, already_active, trading_resumed, limit_updated, limit_refused,
  invalid_command, or_else, shortened, cluster_view_of, status_view, health_view,
}

pub record TelegramControl (D F S : Type 0) : Type 0 where
  pub today : Option S
  pub runtime_stats : Option (RuntimeStats D F)
  pub position_display_limit : ℕ

abbrev all_clusters : {D F : Type 0} → Option (List (Cluster D F)) → List (Cluster D F)
all_clusters none = []
all_clusters (some clusters) = clusters

module _ {D F S : Type 0} where
  unfoldable pub pool_text : TelegramControl D F S → Reply D S
  pool_text c = elim c.runtime_stats [
    | none ↦ no_pool
    | some runtime ↦ elim runtime.pool_stats [
      | none ↦ pool_not_initialized
      | some found ↦ pool_of found
    ]
  ]

  unfoldable pub markets_text : TelegramControl D F S → Reply D S
  markets_text c = elim c.runtime_stats [
    | none ↦ no_market_stats
    | some runtime ↦
        let clusters = all_clusters runtime.cluster_view in
        if nat_beq runtime.market_count 0 && nat_beq runtime.token_count 0
        then no_markets
        else markets_of runtime.market_count runtime.token_count
            (map cluster_view_of (take 3 clusters)) (length clusters - 3)
  ]

module _ {D F S : Type 0} ⦃d : Decimal D⦄ (c : TelegramControl D F S) where
  unfoldable pub positions_text : AppState D → Reply D S
  positions_text s =
      let active = active_positions s in
      if is_empty active
      then no_positions
      else positions_of (length active)
          (map {A = RuntimePosition D} (λ p. record p { market_id = shortened 12 p.market_id })
            (take c.position_display_limit active))
          (length active - c.position_display_limit)

  unfoldable pub pause_text : AppState D → Reply D S × AppState D
  pause_text s =
      if s.circuit_breaker
      then (already_paused (or_else "unknown" s.circuit_breaker_reason), s)
      else (trading_paused, activate_circuit_breaker "paused via Telegram" s)

  unfoldable pub resume_text : AppState D → Reply D S × AppState D
  resume_text s =
      if not s.circuit_breaker
      then (already_active, s)
      else (trading_resumed, reset_circuit_breaker s)

  unfoldable pub set_risk_text : RiskLimitKind → D → AppState D → Reply D S × AppState D
  set_risk_text kind value s =
      let (t, answer) = set_risk_limit kind value s in
      elim answer [
        | ok limits ↦ (limit_updated kind value limits, t)
        | err e ↦ (limit_refused kind e, t)
      ]

  unfoldable pub execute : TelegramCommand D → AppState D → Reply D S × AppState D
  execute start s = (command_help, s)
  execute help s = (command_help, s)
  execute status s = (status_of (status_view s), s)
  execute health s = (health_of (health_view s), s)
  execute positions s = (positions_text s, s)
  execute stats s = (stats_of c.today, s)
  execute pool s = (pool_text c, s)
  execute markets s = (markets_text c, s)
  execute version s = (version_of, s)
  execute pause s = pause_text s
  execute resume s = resume_text s
  execute (set_risk kind value) s = set_risk_text kind value s

  -- The `match` on the parsed message.
  unfoldable pub respond :
      Result (TelegramCommand D) CommandParseError → AppState D → Option (Reply D S) × AppState D
  respond (ok command) s = let (reply, t) = execute command s in (some reply, t)
  respond (err not_a_command) s = (none, s)
  respond (err e) s = (some (invalid_command e), s)

  -- A chat is known by its number.
  unfoldable pub command_response_for_message :
      (from_str : Text → Option D)
      → Text
      → (incoming_chat allowed_chat : ℕ) → AppState D
      → Option (Reply D S) × AppState D
  command_response_for_message from_str text incoming_chat allowed_chat s =
      if nat_beq incoming_chat allowed_chat
      then respond (parse_command from_str text) s
      else (none, s)
