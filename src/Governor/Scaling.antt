-- ===== src/Governor/Scaling.antt =====
-- What `recommendation` of src/infrastructure/governor/latency.rs recommends.
use edgelord.Common.{
  ℕ, ◌+◌, ◌-◌, ◌≤◌, ◌<◌, ◌≡◌, ◌∙◌, refl, Bool, true, not, ◌&&◌, ◌||◌, List, [], ◌∷◌, none, some,
  ltb, nat_beq, arith, if◌then◌else◌,
}
use edgelord.Governor.Latency.{
  LatencyGovernor, Ranks, hold, is_expand, is_contract, suggested_count, estimate_max_subscriptions,
  in_cooldown, notify_scaled, record_latency, latency_metrics, recommendation,
}
use edgelord.Governor.Window.{record_each}

module _ {F : Type 0} (ranks : Ranks) where
  -- The governor may recommend a change: it is enabled, rests no more and has a sample.
  abbrev pub may_scale : ℕ → LatencyGovernor F → Bool
  may_scale now g =
      g.config.enabled
      && not (in_cooldown now g)
      && not (nat_beq (latency_metrics ranks g).sample_count 0)

  -- The latency is too high.
  abbrev pub is_overloaded : LatencyGovernor F → Bool
  is_overloaded g =
      let metrics = latency_metrics ranks g in
      ltb g.config.latency.max_p99 metrics.p99
      || g.config.scaling.is_above_contract metrics.p95 g.config.latency.target_p95

  -- It recommends to contract exactly when it may scale and the latency is too high, and to expand
  -- exactly when it may scale, the latency is not too high and the p95 is low enough; the count is
  -- the estimate of the memory less the one step, or more by the other.
  pub recommendation_table :
      (now : ℕ) (g : LatencyGovernor F)
      → (is_contract (recommendation ranks now g) ≡ (may_scale now g && is_overloaded g))
        × (is_expand (recommendation ranks now g) ≡ (
            may_scale now g
            && not (is_overloaded g)
            && g.config.scaling.is_below_expand
                (latency_metrics ranks g).p95
                g.config.latency.target_p95))
        × (suggested_count (recommendation ranks now g) ≡ (
            if is_contract (recommendation ranks now g)
            then some (estimate_max_subscriptions g.budget - g.config.scaling.contract_step)
            else if is_expand (recommendation ranks now g)
            then some (estimate_max_subscriptions g.budget + g.config.scaling.expand_step)
            else none))
  unfolding recommendation is_contract is_expand suggested_count
  recommendation_table now g = ground arith

  in_cooldown-record_each :
      (now : ℕ) (ls : List ℕ) (g : LatencyGovernor F)
      → in_cooldown now (record_each ls g) ≡ in_cooldown now g
  unfolding record_each record_latency in_cooldown
  in_cooldown-record_each now [] g = refl
  in_cooldown-record_each now (l ∷ ls) g = in_cooldown-record_each now ls (record_latency l g)

  in_cooldown-notify_scaled :
      (at now : ℕ) (g : LatencyGovernor F)
      → at ≤ now
      → now < at + g.config.scaling.cooldown
      → in_cooldown now (notify_scaled at g) ≡ true
  unfolding in_cooldown notify_scaled
  in_cooldown-notify_scaled at now g from h = ground arith

  recommendation_resting :
      (now : ℕ) (g : LatencyGovernor F)
      → in_cooldown now g ≡ true
      → recommendation ranks now g ≡ hold
  unfolding recommendation
  recommendation_resting now g h = ground (arith, h)

  -- For the whole cooldown after a scaling it holds, whatever is measured.
  pub recommendation-cooldown :
      (at now : ℕ) (ls : List ℕ) (g : LatencyGovernor F)
      → at ≤ now
      → now < at + g.config.scaling.cooldown
      → recommendation ranks now (record_each ls (notify_scaled at g)) ≡ hold
  recommendation-cooldown at now ls g from h =
      recommendation_resting now (record_each ls (notify_scaled at g)) (
        in_cooldown-record_each now ls (notify_scaled at g)
        ∙ in_cooldown-notify_scaled at now g from h)
