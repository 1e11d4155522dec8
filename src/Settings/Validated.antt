-- ===== src/Settings/Validated.antt =====
-- What `Config::validate` (src/infrastructure/config/settings.rs) ensures for the parts it configures.
use edgelord.Common.{ℕ, ◌≡◌, Bool, false, ◌<◌, ok, Done, arith}
use edgelord.Money.{Decimal}
use edgelord.State.Limits.{AreValid}
use edgelord.Exchange.Pool.{ConfigError}
use edgelord.Exchange.Reconnecting.{ReconnectingDataStream, Link, new}
use edgelord.Exchange.Reconnecting.Invariant.{Inv, Reach, Reach-Inv}
use edgelord.Settings.{
  NetworkConfig, RiskConfig, ReconnectionConfig, Config, Float, limits_from, network, stream_config,
  refuse_if, validate_network, validate_risk, validate_reconnection, validate,
}

refuse_if_passes :
    (b : Bool) (e : ConfigError) (rest : Done ConfigError) {u : Unit}
    → refuse_if b e rest ≡ ok u
    → (b ≡ false) × (rest ≡ ok u)
refuse_if_passes b e rest h = ground arith

validate_network_passes :
    (c : NetworkConfig) (rest : Done ConfigError) {u : Unit}
    → validate_network c rest ≡ ok u
    → rest ≡ ok u
unfolding validate_network
validate_network_passes c rest h = ground arith

module _ {D : Type 0} ⦃d : Decimal D⦄ where
  validate_risk_passes :
      (c : RiskConfig D) (rest : Done ConfigError) {u : Unit}
      → validate_risk c rest ≡ ok u
      → AreValid (limits_from c) × (rest ≡ ok u)
  unfolding validate_risk
  validate_risk_passes c rest h = ground arith

module _ {F : Type 0} (f : Float F) where
  validate_reconnection_passes :
      (c : ReconnectionConfig F) (rest : Done ConfigError) {u : Unit}
      → validate_reconnection f c rest ≡ ok u
      → (0 < c.max_consecutive_failures) × (rest ≡ ok u)
  unfolding validate_reconnection
  validate_reconnection_passes c rest h = ground arith

module _ {W E M D F : Type 0} ⦃d : Decimal D⦄ (f : Float F) (x : Link W E M) where
  -- A configuration that `validate` accepts gives well-formed risk limits, and a stream that reconnects
  -- by it keeps its invariant in every state that its calls reach.
  pub validate_starts :
      (c : Config D F) (times : F → ℕ → ℕ) (w : W)
      → validate f c ≡ ok tt
      → {s : ReconnectingDataStream W} → Reach x (new w (stream_config times c.reconnection)) s
      → AreValid (limits_from c.risk) × Inv s
  unfolding validate
  validate_starts c times w h r =
      let after_network = validate_network_passes (network c.exchange_config) _ h in
      let (limits, after_risk) = validate_risk_passes c.risk _ after_network in
      let (failures, rest) = validate_reconnection_passes f c.reconnection _ after_risk in
      (limits, Reach-Inv x w (stream_config times c.reconnection) failures r)
