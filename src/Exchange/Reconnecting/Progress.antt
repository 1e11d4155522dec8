-- ===== src/Exchange/Reconnecting/Progress.antt =====
-- `next_event` of a reconnecting stream delivers an event
-- (src/infrastructure/exchange/reconnecting.rs).
use edgelord.Common.{
  ℕ, zero, suc, ◌+◌, ◌≤◌, ◌<◌, ◌≡◌, inl, inr, List, Option, none, some, ok, err, Done, arith,
  Option-cases, ◌-◌, true, false,
}
use edgelord.Domain.Id.{TokenId}
use edgelord.Exchange.Event.{MarketEvent, disconnected}
use edgelord.Exchange.Reconnecting.{
  ReconnectingDataStream, Link, next_event, turn, receive, reconnect, await_circuit, next_delay,
  asleep, attempt_connection, record_failure, reset_backoff, circuit_allows_connection, jitter_ms,
  closed, open_until, cool_down, CircuitState,
}

abbrev pub failed : {E : Type 0} → Done E → ℕ
failed (ok _) = 0
failed (err _) = 1

-- The end of the wrapped stream and a disconnection.
abbrev pub dropped : {D : Type 0} → Option (MarketEvent D) → ℕ
dropped none = 1
dropped (some (disconnected _)) = 1
dropped (some _) = 0

abbrev missing : {D : Type 0} → Option (MarketEvent D) → ℕ
missing none = 1
missing (some _) = 0

-- The world counts the failures that are still to come: a refused connection or subscription, an end
-- of the stream and a disconnection use one up, and no call adds any.
pub record Faults {W E D : Type 0} (x : Link W E D) : Type 0 where
  pub left : W → ℕ
  pub left-connect : (w : W) → left (x.connect w).1 + failed (x.connect w).0 ≤ left w
  pub left-subscribe :
      (ts : List TokenId) (w : W) → left (x.subscribe ts w).1 + failed (x.subscribe ts w).0 ≤ left w
  pub left-next_event : (w : W) → left (x.next_event w).1 + dropped (x.next_event w).0 ≤ left w
  pub left-now : (w : W) → left (x.now w).1 ≤ left w
  pub left-subsec_nanos : (w : W) → left (x.subsec_nanos w).1 ≤ left w
  pub left-sleep : (ms : ℕ) (w : W) → left (x.sleep ms w) ≤ left w

module _ {W E D : Type 0} (x : Link W E D) (f : Faults x) where
  open f use {left}

  left-cool_down :
      (c : CircuitState) (s : ReconnectingDataStream W)
      → left (cool_down x c s).inner ≤ left s.inner
  unfolding cool_down reset_backoff
  left-cool_down closed s = omega arith
  left-cool_down (open_until until) s =
      let (now, w) = x.now s.inner in
      omega (arith, f.left-now s.inner, f.left-sleep (until - now) w)

  left-await_circuit :
      (s : ReconnectingDataStream W) → left (await_circuit x s).inner ≤ left s.inner
  unfolding await_circuit circuit_allows_connection reset_backoff
  left-await_circuit s =
      let t = (circuit_allows_connection x s).1 in
      ground (arith, f.left-now s.inner, left-cool_down t.circuit_state t)

  left-record_failure :
      (s : ReconnectingDataStream W) → left (record_failure x s).inner ≤ left s.inner
  unfolding record_failure
  left-record_failure s = ground (arith, f.left-now s.inner)

  left-next_delay :
      (s : ReconnectingDataStream W) → left (asleep x (next_delay x s)).inner ≤ left s.inner
  unfolding next_delay jitter_ms
  left-next_delay s =
      let (delay, u) = next_delay x s in
      ground (arith, f.left-subsec_nanos s.inner, f.left-sleep delay u.inner)

  left-attempt_connection :
      (s : ReconnectingDataStream W)
      → left (attempt_connection x s).1.inner + failed (attempt_connection x s).0 ≤ left s.inner
  unfolding attempt_connection reset_backoff
  left-attempt_connection s =
      let (answer, w) = x.connect s.inner in
      let t = record s { inner = w; connected = true } in
      let again = x.subscribe s.subscribed_tokens w in
      ground (
        arith,
        f.left-connect s.inner,
        f.left-subscribe s.subscribed_tokens w,
        left-record_failure (record s { inner = w }),
        left-record_failure (record t { inner = again.1; connected = false }),
      )

  left-reconnect :
      (s : ReconnectingDataStream W)
      → left (reconnect x s).1.inner + failed (reconnect x s).0 ≤ left s.inner
  unfolding reconnect
  left-reconnect s =
      let t = await_circuit x s in
      omega (
        arith,
        left-attempt_connection (asleep x (next_delay x t)),
        left-next_delay t,
        left-await_circuit s,
      )

  left-receive :
      (s : ReconnectingDataStream W)
      → left (receive x s).1.inner + missing (receive x s).0 ≤ left s.inner
  unfolding receive reset_backoff
  left-receive s =
      let (answer, w) = x.next_event s.inner in
      let t = record s { inner = w; connected = false } in
      ground (arith, f.left-next_event s.inner, left-record_failure t)

  -- A turn that delivers nothing uses up a failure.
  left-turn :
      (s : ReconnectingDataStream W) → left (turn x s).1.inner + missing (turn x s).0 ≤ left s.inner
  unfolding turn
  left-turn s =
      let t = (reconnect x s).1 in ground (arith, left-receive s, left-receive t, left-reconnect s)

  -- If the wrapped stream and the exchange fail fewer times from now on than there are turns,
  -- `next_event` delivers an event.
  pub next_event-delivers :
      (fuel : ℕ) (s : ReconnectingDataStream W)
      → left s.inner < fuel
      → (event : MarketEvent D) × ((next_event x fuel s).0 ≡ some event)
  unfolding next_event
  next_event-delivers zero s h = absurd (omega arith)
  next_event-delivers (suc fuel) s h =
      let spent = left-turn s in
      let later = next_event-delivers fuel (turn x s).1 in
      elim (Option-cases (turn x s).0) [
        | inl nothing ↦ let (event, e) = later (ground arith) in (event, ground (arith, e, nothing))
        | inr (event, e) ↦ (event, ground (arith, e))
      ]
