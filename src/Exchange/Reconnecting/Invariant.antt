-- ===== src/Exchange/Reconnecting/Invariant.antt =====
-- What holds of a reconnecting stream between two calls (src/infrastructure/exchange/reconnecting.rs).
use edgelord.Common.{ℕ, zero, suc, ◌≤◌, ◌<◌, ◌≡◌, ◌∙◌, true, false, arith, ok, List}
use edgelord.Domain.Id.{TokenId}
use edgelord.Exchange.Reconnecting.{
  ReconnectionConfig, ReconnectingDataStream, closed, open_until, Link, new, connect, subscribe,
  next_event, turn, receive, reconnect, await_circuit, next_delay, attempt_connection,
  record_failure, asleep, cool_down, reset_backoff, circuit_allows_connection, jitter_ms, max,
}

-- The circuit is open exactly when the failures have reached the maximum, and a stream that is
-- connected has no failure and the initial delay.
pub record Inv {W : Type 0} (s : ReconnectingDataStream W) : Type 0 where
  pub failures_allowed : 0 < s.config.max_consecutive_failures
  pub connected_clean : s.connected ≡ true → s.consecutive_failures ≡ 0
  pub connected_initial : s.connected ≡ true → s.current_delay_ms ≡ s.config.initial_delay_ms
  pub closed_below :
      s.circuit_state ≡ closed → s.consecutive_failures < s.config.max_consecutive_failures
  pub open_full :
      (until : ℕ)
      → s.circuit_state ≡ open_until until
      → s.consecutive_failures ≡ s.config.max_consecutive_failures
  pub delay_capped : s.current_delay_ms ≤ max s.config.initial_delay_ms s.config.max_delay_ms

pub new-Inv :
    {W : Type 0} (w : W) (c : ReconnectionConfig) → 0 < c.max_consecutive_failures → Inv (new w c)
unfolding new
new-Inv w c h = ground arith

module _ {W E D : Type 0} (x : Link W E D) where
  record_failure-Inv :
      (s : ReconnectingDataStream W) → Inv s → s.circuit_state ≡ closed → Inv (record_failure x s)
  unfolding record_failure
  record_failure-Inv s h c = ground arith

  await_circuit-closed :
      (s : ReconnectingDataStream W)
      → Inv s
      → Inv (await_circuit x s) × ((await_circuit x s).circuit_state ≡ closed)
  unfolding await_circuit cool_down circuit_allows_connection reset_backoff
  await_circuit-closed s h = ground arith

  next_delay-closed :
      (s : ReconnectingDataStream W)
      → Inv s
      → s.connected ≡ false
      → s.circuit_state ≡ closed
      → Inv (next_delay x s).1 × ((next_delay x s).1.circuit_state ≡ closed)
  unfolding next_delay jitter_ms
  next_delay-closed s h d c = ground arith

  attempt_connection-Inv :
      (s : ReconnectingDataStream W)
      → Inv s
      → s.circuit_state ≡ closed
      → Inv (attempt_connection x s).1
  unfolding attempt_connection record_failure reset_backoff
  attempt_connection-Inv s h c = ground arith

  attempt_connection-connected :
      (s : ReconnectingDataStream W) {u : Unit}
      → (attempt_connection x s).0 ≡ ok u
      → (attempt_connection x s).1.connected ≡ true
  unfolding attempt_connection record_failure reset_backoff
  attempt_connection-connected s h = ground arith

  receive-Inv : (s : ReconnectingDataStream W) → Inv s → s.connected ≡ true → Inv (receive x s).1
  unfolding receive record_failure reset_backoff
  receive-Inv s h c = ground arith

  await_circuit-connected :
      (s : ReconnectingDataStream W) → (await_circuit x s).connected ≡ s.connected
  unfolding await_circuit cool_down circuit_allows_connection reset_backoff
  await_circuit-connected s = ground arith

  pub reconnect-Inv :
      (s : ReconnectingDataStream W) → Inv s → s.connected ≡ false → Inv (reconnect x s).1
  unfolding reconnect
  reconnect-Inv s h d =
      let (waited, shut) = await_circuit-closed s h in
      let (after, still) =
        next_delay-closed (await_circuit x s) waited (await_circuit-connected s ∙ d) shut in
      attempt_connection-Inv (asleep x (next_delay x (await_circuit x s))) (ground (arith, after))
        still

  pub reconnect-connected :
      (s : ReconnectingDataStream W) {u : Unit}
      → (reconnect x s).0 ≡ ok u
      → (reconnect x s).1.connected ≡ true
  unfolding reconnect
  reconnect-connected s = attempt_connection-connected (asleep x (next_delay x (await_circuit x s)))

  pub turn-Inv : (s : ReconnectingDataStream W) → Inv s → Inv (turn x s).1
  unfolding turn
  turn-Inv s h = ground (
    arith,
    receive-Inv s h,
    reconnect-Inv s h,
    reconnect-connected s,
    receive-Inv (reconnect x s).1,
  )

  pub next_event-Inv :
      (fuel : ℕ) (s : ReconnectingDataStream W) → Inv s → Inv (next_event x fuel s).1
  unfolding next_event
  next_event-Inv zero s h = h
  next_event-Inv (suc fuel) s h =
      let after = turn-Inv s h in ground (arith, after, next_event-Inv fuel (turn x s).1 after)

  connect-Inv : (s : ReconnectingDataStream W) → Inv s → Inv (connect x s).1
  unfolding connect reset_backoff
  connect-Inv s h = ground arith

  subscribe-Inv :
      (ts : List TokenId) (s : ReconnectingDataStream W) → Inv s → Inv (subscribe x ts s).1
  unfolding subscribe
  subscribe-Inv ts s h = ground arith

  -- The calls of `MarketDataStream`, in any order.
  pub data Reach (s : ReconnectingDataStream W) : ReconnectingDataStream W → Type 0 where
    here : Reach s s
    connecting : {t : ReconnectingDataStream W} → Reach s t → Reach s (connect x t).1
    subscribing :
        {t : ReconnectingDataStream W} (ts : List TokenId)
        → Reach s t
        → Reach s (subscribe x ts t).1
    receiving :
        {t : ReconnectingDataStream W} (fuel : ℕ) → Reach s t → Reach s (next_event x fuel t).1

  -- In every state that calls of `connect`, `subscribe` and `next_event` reach from a new stream
  -- whose configuration allows a failure, the count of failures is at most the maximum, the circuit
  -- is open exactly when it has reached it, the delay is at most the larger of the initial and
  -- the maximal delay, and a connected stream has no failure and the initial delay.
  pub Reach-Inv :
      (w : W) (c : ReconnectionConfig)
      → 0 < c.max_consecutive_failures
      → {s : ReconnectingDataStream W} → Reach (new w c) s
      → Inv s
  Reach-Inv w c h here = new-Inv w c h
  Reach-Inv w c h (connecting r) = connect-Inv _ (Reach-Inv w c h r)
  Reach-Inv w c h (subscribing ts r) = subscribe-Inv ts _ (Reach-Inv w c h r)
  Reach-Inv w c h (receiving fuel r) = next_event-Inv fuel _ (Reach-Inv w c h r)
