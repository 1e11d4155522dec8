-- ===== src/Exchange/Reconnecting/Delays.antt =====
-- How long a reconnecting stream waits (src/infrastructure/exchange/reconnecting.rs).
use edgelord.Common.{Done, ap, ℕ, ◌+◌, ◌-◌, ◌/◌, ◌≤◌, ◌<◌, ◌≡◌, arith}
use edgelord.Exchange.Reconnecting.{
  ReconnectionConfig, ReconnectingDataStream, open_until, Link, new, await_circuit, max, next_delay,
  asleep, attempt_connection, reconnect, record_failure, cool_down, reset_backoff,
  circuit_allows_connection, jitter_ms,
}
use edgelord.Exchange.Reconnecting.Invariant.{Reach, Reach-Inv}

module _ {W E D : Type 0} (x : Link W E D) where
  jitter_ms_capped :
      (base_delay : ℕ) (s : ReconnectingDataStream W)
      → (jitter_ms x base_delay s).0 ≤ base_delay / 5
  unfolding jitter_ms
  jitter_ms_capped base_delay s = ground arith

  -- In every state reached from a new stream, the next wait is at least the current delay and at most
  -- a fifth above the larger of the initial and the maximal delay.
  pub next_delay-bounds :
      (w : W) (c : ReconnectionConfig)
      → 0 < c.max_consecutive_failures
      → {s : ReconnectingDataStream W} → Reach x (new w c) s
      → (s.current_delay_ms ≤ (next_delay x s).0)
        × ((next_delay x s).0
            ≤ max s.config.initial_delay_ms s.config.max_delay_ms
              + max s.config.initial_delay_ms s.config.max_delay_ms / 5)
  unfolding next_delay
  next_delay-bounds w c h {s} r =
      let inv = Reach-Inv x w c h r in ground (arith, inv, jitter_ms_capped s.current_delay_ms s)

  await_circuit_over :
      ((w : W) → (x.now w).0 ≤ (x.now (x.now w).1).0)
      → ((w : W) (ms : ℕ) → (x.now w).0 + ms ≤ (x.now (x.sleep ms w)).0)
      → (s : ReconnectingDataStream W) (until : ℕ) → s.circuit_state ≡ open_until until
      → until ≤ (x.now (await_circuit x s).inner).0
  unfolding await_circuit cool_down circuit_allows_connection reset_backoff
  await_circuit_over clock slept s until o =
      let (first, u) = x.now s.inner in
      let (second, v) = x.now u in
      ground (arith, clock s.inner, clock u, clock v, slept v (until - second))

  asleep_later :
      ((w : W) → (x.now w).0 ≤ (x.now (x.subsec_nanos w).1).0)
      → ((w : W) (ms : ℕ) → (x.now w).0 + ms ≤ (x.now (x.sleep ms w)).0)
      → (t : ReconnectingDataStream W)
      → (x.now t.inner).0 ≤ (x.now (asleep x (next_delay x t)).inner).0
  unfolding next_delay jitter_ms
  asleep_later nanos slept t =
      let (delay, u) = next_delay x t in ground (arith, nanos t.inner, slept u.inner delay)

  asleep_over :
      ((w : W) → (x.now w).0 ≤ (x.now (x.now w).1).0)
      → ((w : W) → (x.now w).0 ≤ (x.now (x.subsec_nanos w).1).0)
      → ((w : W) (ms : ℕ) → (x.now w).0 + ms ≤ (x.now (x.sleep ms w)).0)
      → (s : ReconnectingDataStream W) (until : ℕ) → s.circuit_state ≡ open_until until
      → until ≤ (x.now (asleep x (next_delay x (await_circuit x s))).inner).0
  asleep_over clock nanos slept s until o = omega (
    arith,
    await_circuit_over clock slept s until o,
    asleep_later nanos slept (await_circuit x s),
  )

  -- The same wrapped stream with another `connect`.
  abbrev pub with_connect : (W → Done E × W) → Link W E D
  with_connect connect = record x { connect = connect }

  -- `attempt_connection` after the answer of `connect`.
  abbrev attempted : ReconnectingDataStream W → Done E × W → Done E × ReconnectingDataStream W
  attempted s answer = attempt_connection (with_connect (λ w. answer)) s

  attempt_connection-with_connect :
      (connect : W → Done E × W) (s : ReconnectingDataStream W)
      → connect s.inner ≡ x.connect s.inner
      → attempt_connection (with_connect connect) s ≡ attempt_connection x s
  unfolding attempt_connection record_failure
  attempt_connection-with_connect connect s h = ap (attempted s) h

  -- While the circuit is open, what the wrapped `connect` does before the cooldown is over does not
  -- matter to `reconnect`: it is the same with any `connect` that agrees from then on, if the clock
  -- does not run backwards and a sleep lasts at least its duration.
  pub reconnect_cooldown :
      ((w : W) → (x.now w).0 ≤ (x.now (x.now w).1).0)
      → ((w : W) → (x.now w).0 ≤ (x.now (x.subsec_nanos w).1).0)
      → ((w : W) (ms : ℕ) → (x.now w).0 + ms ≤ (x.now (x.sleep ms w)).0)
      → (s : ReconnectingDataStream W) (until : ℕ) → s.circuit_state ≡ open_until until
      → (connect : W → Done E × W) → ((w : W) → until ≤ (x.now w).0 → connect w ≡ x.connect w)
      → reconnect (with_connect connect) s ≡ reconnect x s
  unfolding reconnect await_circuit next_delay jitter_ms circuit_allows_connection cool_down
  reconnect_cooldown clock nanos slept s until o connect agree =
      let t = asleep x (next_delay x (await_circuit x s)) in
      attempt_connection-with_connect connect t
        (agree t.inner (asleep_over clock nanos slept s until o))
