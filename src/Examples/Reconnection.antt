-- ===== src/Examples/Reconnection.antt =====
-- A scripted exchange behind a reconnecting stream: connections that are refused, a stream that ends.
use edgelord.Common.{
  ℕ, suc, ◌+◌, ◌≤◌, ◌<◌, ◌≡◌, refl, true, false, Bool, List, [], ◌∷◌, Option, none, some, ok, err,
  Done, arith, String, ltb, if◌then◌else◌,
}
use edgelord.Common.Int.{ℤ}
use edgelord.Domain.Id.{TokenId}
use edgelord.Domain.Book.{empty_book}
use edgelord.Exchange.Event.{MarketEvent, connected, book_snapshot}
use edgelord.Exchange.Reconnecting.{
  ReconnectionConfig, ReconnectingDataStream, Link, new, subscribe, next_event, open_until,
  next_delay, await_circuit, reset_backoff, turn, receive, reconnect, circuit_allows_connection,
  cool_down, jitter_ms, attempt_connection, record_failure,
}
use edgelord.Exchange.Reconnecting.Invariant.{Inv, here, subscribing, receiving, Reach-Inv}
use edgelord.Exchange.Reconnecting.Delays.{reconnect_cooldown, with_connect}
use edgelord.Exchange.Reconnecting.Progress.{Faults, next_event-delivers, dropped, failed}
use edgelord.Exchange.Reconnecting.Resubscribe.{Subscriptions, next_event-resubscribed}

pub record Script : Type 0 where
  clock : ℕ
  accepts : List Bool
  answers : List (Option (MarketEvent ℤ))
  sends : List TokenId

abbrev connect_with : List Bool → Script → Done String × Script
connect_with [] w = (ok tt, record w { sends = []; accepts = [] })
connect_with (true ∷ rest) w = (ok tt, record w { sends = []; accepts = rest })
connect_with (false ∷ rest) w = (err "refused", record w { accepts = rest })

abbrev answer_with : List (Option (MarketEvent ℤ)) → Script → Option (MarketEvent ℤ) × Script
answer_with [] w = (some connected, record w { answers = [] })
answer_with (a ∷ rest) w = (a, record w { answers = rest })

abbrev pub link : Link Script String ℤ
link = record {
  connect = λ w. connect_with w.accepts w;
  subscribe = λ ts w. (ok tt, record w { sends = ts });
  next_event = λ w. answer_with w.answers w;
  now = λ w. (w.clock, w);
  subsec_nanos = λ w. (w.clock, w);
  sleep = λ ms w. record w { clock = w.clock + ms };
}

abbrev settings : ReconnectionConfig
settings = record {
  initial_delay_ms = 1000;
  max_delay_ms = 60000;
  backoff_multiplier = λ d. d + d;
  max_consecutive_failures = 2;
  circuit_breaker_cooldown_ms = 300000;
}

abbrev snapshot : MarketEvent ℤ
snapshot = book_snapshot "yes" (empty_book "yes")

-- One refused connection, then an end of the stream, then a book.
abbrev pub world : Script
world = record { clock = 0; accepts = false ∷ []; answers = none ∷ some snapshot ∷ []; sends = [] }

abbrev stream : ReconnectingDataStream Script
stream = (subscribe link ("yes" ∷ []) (new world settings)).1

Reach-Inv_example : Inv (next_event link 4 stream).1
Reach-Inv_example =
    Reach-Inv link world settings (omega arith) (receiving 4 (subscribing ("yes" ∷ []) here))

refusals : List Bool → ℕ
refusals [] = 0
refusals (true ∷ rest) = refusals rest
refusals (false ∷ rest) = suc (refusals rest)

losses : List (Option (MarketEvent ℤ)) → ℕ
losses [] = 0
losses (a ∷ rest) = dropped a + losses rest

connect_with_left :
    (accepts : List Bool) (w : Script)
    → refusals (connect_with accepts w).1.accepts
        + losses (connect_with accepts w).1.answers
        + failed (connect_with accepts w).0
      ≤ refusals accepts + losses w.answers
unfolding refusals
connect_with_left [] w = omega arith
connect_with_left (true ∷ rest) w = omega arith
connect_with_left (false ∷ rest) w = omega arith

answer_with_left :
    (answers : List (Option (MarketEvent ℤ))) (w : Script)
    → refusals (answer_with answers w).1.accepts
        + losses (answer_with answers w).1.answers
        + dropped (answer_with answers w).0
      ≤ refusals w.accepts + losses answers
unfolding losses
answer_with_left [] w = omega arith
answer_with_left (a ∷ rest) w = omega arith

-- The refusals and losses of the script.
faults : Faults link
faults = record {
  left = λ w. refusals w.accepts + losses w.answers;
  left-connect = λ w. connect_with_left w.accepts w;
  left-subscribe = λ ts w. omega arith;
  left-next_event = λ w. answer_with_left w.answers w;
  left-now = λ w. omega arith;
  left-subsec_nanos = λ w. omega arith;
  left-sleep = λ ms w. omega arith;
}

world_faults : faults.left stream.inner < 3
unfolding faults refusals losses subscribe new
world_faults = omega arith

next_event-delivers_example : (event : MarketEvent ℤ) × ((next_event link 3 stream).0 ≡ some event)
next_event-delivers_example = next_event-delivers link faults 3 stream world_faults

connect_with_held :
    (accepts : List Bool) (w : Script) {u : Unit}
    → (connect_with accepts w).0 ≡ ok u
    → (connect_with accepts w).1.sends ≡ []
connect_with_held [] w h = refl
connect_with_held (true ∷ rest) w h = refl
connect_with_held (false ∷ rest) w h = cc

answer_with_held :
    (answers : List (Option (MarketEvent ℤ))) (w : Script)
    → (answer_with answers w).1.sends ≡ w.sends
answer_with_held [] w = refl
answer_with_held (a ∷ rest) w = refl

subscriptions : Subscriptions link
subscriptions = record {
  held = λ w. w.sends;
  held-connect = λ w h. connect_with_held w.accepts w h;
  held-subscribe = λ ts w h. refl;
  held-next_event = λ w h. answer_with_held w.answers w;
}

stream_subscribed :
    stream.connected ≡ true → subscriptions.held stream.inner ≡ stream.subscribed_tokens
unfolding subscriptions subscribe new
stream_subscribed h = refl

stream_delivers : (next_event link 3 stream).0 ≡ some snapshot
unfolding next_event turn receive reconnect await_circuit circuit_allows_connection cool_down
    next_delay jitter_ms attempt_connection record_failure reset_backoff subscribe new
stream_delivers = refl

next_event-resubscribed_example :
    (subscriptions.held (next_event link 3 stream).1.inner ≡ stream.subscribed_tokens)
    × ((next_event link 3 stream).1.subscribed_tokens ≡ stream.subscribed_tokens)
    × (dropped (some snapshot) ≡ 0)
next_event-resubscribed_example =
    next_event-resubscribed link subscriptions 3 stream stream_subscribed stream_delivers

-- A stream whose circuit opened until 5000.
abbrev paused : ReconnectingDataStream Script
paused = record stream { circuit_state = open_until 5000; consecutive_failures = 2 }

-- A `connect` that is refused until the cooldown is over.
abbrev refused_before : ℕ → Script → Done String × Script
refused_before until w = if ltb w.clock until then (err "too early", w) else link.connect w

reconnect_cooldown_example :
    reconnect (with_connect link (refused_before 5000)) paused ≡ reconnect link paused
reconnect_cooldown_example =
    reconnect_cooldown link (λ w. omega arith) (λ w. omega arith) (λ w ms. omega arith) paused 5000
      refl (refused_before 5000) (λ w h. ground (arith, h))
