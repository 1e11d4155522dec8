-- ===== src/Exchange/Reconnecting/Resubscribe.antt =====
-- A reconnecting stream subscribes again after a loss (src/infrastructure/exchange/reconnecting.rs).
use edgelord.Common.{
  ℕ, zero, suc, ◌≡◌, ◌∙◌, inl, inr, true, List, [], some, ok, Option-cases, arith,
}
use edgelord.Domain.Id.{TokenId}
use edgelord.Exchange.Event.{MarketEvent}
use edgelord.Exchange.Reconnecting.{
  ReconnectingDataStream, Link, next_event, turn, receive, reconnect, await_circuit, next_delay,
  asleep, cool_down, attempt_connection, record_failure, reset_backoff, circuit_allows_connection,
  jitter_ms,
}
use edgelord.Exchange.Reconnecting.Invariant.{reconnect-connected}
use edgelord.Exchange.Reconnecting.Progress.{dropped}

-- The tokens that the exchange sends: none on a new connection, then those of the last subscription.
pub record Subscriptions {W E D : Type 0} (x : Link W E D) : Type 0 where
  pub held : W → List TokenId
  pub held-connect : (w : W) {u : Unit} → (x.connect w).0 ≡ ok u → held (x.connect w).1 ≡ []
  pub held-subscribe :
      (ts : List TokenId) (w : W) {u : Unit}
      → (x.subscribe ts w).0 ≡ ok u
      → held (x.subscribe ts w).1 ≡ ts
  pub held-next_event : (w : W) → dropped (x.next_event w).0 ≡ 0 → held (x.next_event w).1 ≡ held w

module _ {W E D : Type 0} (x : Link W E D) where
  subscribed_tokens-await_circuit :
      (s : ReconnectingDataStream W) → (await_circuit x s).subscribed_tokens ≡ s.subscribed_tokens
  unfolding await_circuit cool_down circuit_allows_connection reset_backoff
  subscribed_tokens-await_circuit s = ground arith

  subscribed_tokens-next_delay :
      (s : ReconnectingDataStream W) → (next_delay x s).1.subscribed_tokens ≡ s.subscribed_tokens
  unfolding next_delay jitter_ms
  subscribed_tokens-next_delay s = ground arith

  subscribed_tokens-attempt_connection :
      (s : ReconnectingDataStream W)
      → (attempt_connection x s).1.subscribed_tokens ≡ s.subscribed_tokens
  unfolding attempt_connection record_failure reset_backoff
  subscribed_tokens-attempt_connection s = ground arith

  subscribed_tokens-reconnect :
      (s : ReconnectingDataStream W) → (reconnect x s).1.subscribed_tokens ≡ s.subscribed_tokens
  unfolding reconnect
  subscribed_tokens-reconnect s =
      let t = await_circuit x s in
      subscribed_tokens-attempt_connection (asleep x (next_delay x t))
      ∙ subscribed_tokens-next_delay t
      ∙ subscribed_tokens-await_circuit s

  subscribed_tokens-receive :
      (s : ReconnectingDataStream W) → (receive x s).1.subscribed_tokens ≡ s.subscribed_tokens
  unfolding receive record_failure reset_backoff
  subscribed_tokens-receive s = ground arith

  subscribed_tokens-turn :
      (s : ReconnectingDataStream W) → (turn x s).1.subscribed_tokens ≡ s.subscribed_tokens
  unfolding turn
  subscribed_tokens-turn s =
      let t = (reconnect x s).1 in
      ground (
        arith,
        subscribed_tokens-receive s,
        subscribed_tokens-receive t,
        subscribed_tokens-reconnect s,
      )

module _ {W E D : Type 0} (x : Link W E D) (r : Subscriptions x) where
  open r use {held}

  -- While the stream is connected, the exchange sends what the caller has subscribed to.
  abbrev pub IsSubscribed : ReconnectingDataStream W → Type 0
  IsSubscribed s = s.connected ≡ true → held s.inner ≡ s.subscribed_tokens

  attempt_connection-IsSubscribed :
      (s : ReconnectingDataStream W) → IsSubscribed (attempt_connection x s).1
  unfolding attempt_connection record_failure reset_backoff
  attempt_connection-IsSubscribed s =
      let w = (x.connect s.inner).1 in
      ground (arith, r.held-connect s.inner, r.held-subscribe s.subscribed_tokens w)

  receive-IsSubscribed :
      (s : ReconnectingDataStream W) → IsSubscribed s → IsSubscribed (receive x s).1
  unfolding receive record_failure reset_backoff
  receive-IsSubscribed s h = ground (arith, r.held-next_event s.inner)

  reconnect-IsSubscribed : (s : ReconnectingDataStream W) → IsSubscribed (reconnect x s).1
  unfolding reconnect
  reconnect-IsSubscribed s =
      attempt_connection-IsSubscribed (asleep x (next_delay x (await_circuit x s)))

  turn-IsSubscribed : (s : ReconnectingDataStream W) → IsSubscribed s → IsSubscribed (turn x s).1
  unfolding turn
  turn-IsSubscribed s h =
      let t = (reconnect x s).1 in
      ground (arith, receive-IsSubscribed s, receive-IsSubscribed t, reconnect-IsSubscribed s)

  -- An event is delivered on a connection that holds, and is no disconnection.
  delivered :
      (s : ReconnectingDataStream W) {event : MarketEvent D}
      → (turn x s).0 ≡ some event
      → ((turn x s).1.connected ≡ true) × (dropped (some event) ≡ 0)
  unfolding turn receive reset_backoff
  delivered s h = ground (arith, reconnect-connected x s)

  -- If the exchange sends what the caller subscribed to while the stream is connected, then it does
  -- so when `next_event` delivers an event, after any number of losses and reconnections; what is
  -- subscribed has not changed, and the event is no disconnection.
  pub next_event-resubscribed :
      (fuel : ℕ) (s : ReconnectingDataStream W)
      → IsSubscribed s
      → {event : MarketEvent D} → (next_event x fuel s).0 ≡ some event
      → (held (next_event x fuel s).1.inner ≡ s.subscribed_tokens)
        × ((next_event x fuel s).1.subscribed_tokens ≡ s.subscribed_tokens)
        × (dropped (some event) ≡ 0)
  unfolding next_event
  next_event-resubscribed zero s h d = cc
  next_event-resubscribed (suc fuel) s h {event} d =
      let (answer, t) = turn x s in
      let kept = subscribed_tokens-turn x s in
      let after = turn-IsSubscribed s h in
      elim (Option-cases answer) [
        | inl nothing ↦
            let d' : (next_event x fuel t).0 ≡ some event = ground (arith, d, nothing) in
            let (again, same, sound) = next_event-resubscribed fuel t after {event = event} d' in
            (ground (arith, again, nothing, kept), ground (arith, same, nothing, kept), sound)
        | inr (e, found) ↦
            let (live, sound) = delivered s {event = e} found in
            ground (arith, after live, kept, found, d, sound)
      ]
