-- ===== src/Exchange/Reconnecting.antt =====
-- src/infrastructure/exchange/reconnecting.rs and `ReconnectionConfig` of
-- src/infrastructure/config/pool.rs: a stream that connects again, with backoff and a circuit breaker.
-- The wrapped stream, the clock and tokio's `sleep` are a `Link` over a state `W` of the world; an
-- instant and a duration are counted in milliseconds.
pub mod Invariant
pub mod Delays
pub mod Resubscribe
pub mod Progress
use edgelord.Common.{
  ℕ, zero, suc, ◌+◌, ◌-◌, ◌/◌, ◌%◌, Bool, true, false, not, List, [], Option, none, some, Done, ok,
  err, is_empty, leb, ltb, if◌then◌else◌, nat_beq,
}
use edgelord.Domain.Id.{TokenId}
use edgelord.Exchange.Event.{MarketEvent, disconnected}

pub record ReconnectionConfig : Type 0 where
  pub initial_delay_ms : ℕ
  pub max_delay_ms : ℕ
  -- The product with the `f64` of this name, as a `u64` again.
  pub backoff_multiplier : ℕ → ℕ
  pub max_consecutive_failures : ℕ
  pub circuit_breaker_cooldown_ms : ℕ

pub data CircuitState : Type 0 where
  closed : CircuitState
  open_until : (until : ℕ) → CircuitState

-- What the stream `S` and the runtime answer, each call with the world it leaves.
pub record Link (W E D : Type 0) : Type 0 where
  pub connect : W → Done E × W
  pub subscribe : List TokenId → W → Done E × W
  pub next_event : W → Option (MarketEvent D) × W
  pub now : W → ℕ × W
  pub subsec_nanos : W → ℕ × W
  pub sleep : ℕ → W → W

pub record ReconnectingDataStream (W : Type 0) : Type 0 where
  pub inner : W
  pub config : ReconnectionConfig
  pub subscribed_tokens : List TokenId
  pub consecutive_failures : ℕ
  pub current_delay_ms : ℕ
  pub circuit_state : CircuitState
  pub connected : Bool

module _ {W : Type 0} where
  unfoldable pub new : W → ReconnectionConfig → ReconnectingDataStream W
  new inner config = record {
    inner = inner;
    config = config;
    subscribed_tokens = [];
    consecutive_failures = 0;
    current_delay_ms = config.initial_delay_ms;
    circuit_state = closed;
    connected = false;
  }

  unfoldable pub reset_backoff : ReconnectingDataStream W → ReconnectingDataStream W
  reset_backoff s = record s {
    consecutive_failures = 0;
    current_delay_ms = s.config.initial_delay_ms;
    circuit_state = closed;
  }

-- `u64::min`.
abbrev pub min : ℕ → ℕ → ℕ
min a b = if leb a b then a else b

abbrev pub max : ℕ → ℕ → ℕ
max a b = if leb a b then b else a

module _ {W E D : Type 0} (x : Link W E D) where
  unfoldable pub jitter_ms : ℕ → ReconnectingDataStream W → ℕ × ReconnectingDataStream W
  jitter_ms base_delay s =
      let range = base_delay / 5 in
      let read = x.subsec_nanos s.inner in
      if nat_beq range 0 then (0, s) else (read.0 % (range + 1), record s { inner = read.1 })

  -- The delay to wait now; the next one grows up to the maximum.
  unfoldable pub next_delay : ReconnectingDataStream W → ℕ × ReconnectingDataStream W
  next_delay s =
      let (jitter, t) = jitter_ms s.current_delay_ms s in
      (
        s.current_delay_ms + jitter,
        record t {
          current_delay_ms =
              min (s.config.backoff_multiplier s.current_delay_ms) s.config.max_delay_ms;
        },
      )

  unfoldable pub circuit_allows_connection :
      ReconnectingDataStream W → Bool × ReconnectingDataStream W
  circuit_allows_connection s = elim s.circuit_state [
    | closed ↦ (true, s)
    | open_until until ↦
        let (now, w) = x.now s.inner in
        if leb until now
        then (true, reset_backoff (record s { inner = w; circuit_state = closed }))
        else (false, record s { inner = w })
  ]

  unfoldable pub record_failure : ReconnectingDataStream W → ReconnectingDataStream W
  record_failure s =
      let t = record s { consecutive_failures = suc s.consecutive_failures; connected = false } in
      let read = x.now s.inner in
      if leb s.config.max_consecutive_failures t.consecutive_failures
      then record t {
        inner = read.1;
        circuit_state = open_until (read.0 + s.config.circuit_breaker_cooldown_ms);
      }
      else t

  -- The wait for the rest of the cooldown.
  unfoldable pub cool_down : CircuitState → ReconnectingDataStream W → ReconnectingDataStream W
  cool_down closed s = s
  cool_down (open_until until) s =
      let (now, w) = x.now s.inner in
      reset_backoff (record s { inner = x.sleep (until - now) w; circuit_state = closed })

  -- The first part of `reconnect`.
  unfoldable pub await_circuit : ReconnectingDataStream W → ReconnectingDataStream W
  await_circuit s =
      let (allowed, t) = circuit_allows_connection s in
      if allowed then t else cool_down t.circuit_state t

  -- `sleep(delay).await`.
  abbrev pub asleep : ℕ × ReconnectingDataStream W → ReconnectingDataStream W
  asleep (delay, s) = record s { inner = x.sleep delay s.inner }

  -- The second part of `reconnect`: the attempt, and the subscription again.
  unfoldable pub attempt_connection : ReconnectingDataStream W → Done E × ReconnectingDataStream W
  attempt_connection s =
      let (answer, w) = x.connect s.inner in
      elim answer [
        | err e ↦ (err e, record_failure (record s { inner = w }))
        | ok _ ↦
            let t = record s { inner = w; connected = true } in
            if is_empty t.subscribed_tokens
            then (ok tt, reset_backoff t)
            else let (answer, w) = x.subscribe t.subscribed_tokens t.inner in
              elim answer [
                | err e ↦ (err e, record_failure (record t { inner = w; connected = false }))
                | ok _ ↦ (ok tt, reset_backoff (record t { inner = w }))
              ]
      ]

  unfoldable pub reconnect : ReconnectingDataStream W → Done E × ReconnectingDataStream W
  reconnect s = attempt_connection (asleep (next_delay (await_circuit s)))

  unfoldable pub connect : ReconnectingDataStream W → Done E × ReconnectingDataStream W
  connect s =
      let (answer, w) = x.connect s.inner in
      elim answer [
        | ok _ ↦ (ok tt, reset_backoff (record s { inner = w; connected = true }))
        | err e ↦ (err e, record s { inner = w })
      ]

  unfoldable pub subscribe :
      List TokenId → ReconnectingDataStream W → Done E × ReconnectingDataStream W
  subscribe token_ids s =
      let (answer, w) = x.subscribe token_ids s.inner in
      (answer, record s { inner = w; subscribed_tokens = token_ids })

  -- The `match` on the wrapped stream's next event; no event means that the loop goes on.
  unfoldable pub receive :
      ReconnectingDataStream W → Option (MarketEvent D) × ReconnectingDataStream W
  receive s =
      let (answer, w) = x.next_event s.inner in
      let t = record s { inner = w } in
      elim answer [
        | none ↦ (none, record_failure (record t { connected = false }))
        | some (disconnected reason) ↦ (none, record_failure (record t { connected = false }))
        | some event ↦ (some event, if ltb 0 t.consecutive_failures then reset_backoff t else t)
      ]

  -- One turn of the loop of `next_event`.
  unfoldable pub turn : ReconnectingDataStream W → Option (MarketEvent D) × ReconnectingDataStream W
  turn s =
      if s.connected
      then receive s
      else let (answer, t) = reconnect s in elim answer [ err e ↦ (none, t) | ok _ ↦ receive t ]

  -- `next_event`, for a number of turns.
  unfoldable pub next_event :
      ℕ → ReconnectingDataStream W → Option (MarketEvent D) × ReconnectingDataStream W
  next_event zero s = (none, s)
  next_event (suc fuel) s =
      let (event, t) = turn s in elim event [ none ↦ next_event fuel t | some e ↦ (some e, t) ]
