-- ===== src/Examples/Pool.antt =====
-- A connection pool of two connections with two tokens each.
use edgelord.Common.{
  ℕ, ◌≡◌, refl, true, not, ◌&&◌, List, [], ◌∷◌, some, contains, nat_eq, set_remove,
}
use edgelord.Domain.Id.{TokenId}
use edgelord.Exchange.Pool.{
  ConnectionPoolConfig, take, drop, chunks_from, extend_last, needed, with_excess,
  distribute_tokens,
}
use edgelord.Exchange.Pool.Connections.{
  ConnectionPool, ConnectionState, handles, new, subscribe, shutdown, connect_each, new_connection,
  abort_all,
}
use edgelord.Exchange.Pool.Shutdown.{shutdown-running}
use edgelord.Exchange.Pool.Manage.{ReplacementJob, ttl}
use edgelord.Exchange.Pool.Replace.{Handover, begin, swap, here, next, began, swapped}
use edgelord.Exchange.Pool.Rotation.{slots, Reach-slots}

abbrev settings : ConnectionPoolConfig
settings = record {
  max_connections = 2;
  subscriptions_per_connection = 2;
  connection_ttl_secs = 120;
  preemptive_reconnect_secs = 30;
  health_check_interval_secs = 30;
  max_silent_secs = 60;
  channel_capacity = 1;
}

abbrev tokens : List TokenId
tokens = "a" ∷ "b" ∷ "c" ∷ "d" ∷ "e" ∷ []

abbrev clocks : ℕ → ℕ × ℕ
clocks h = (h, h)

abbrev pool : ConnectionPool
pool = subscribe clocks tokens (new settings)

-- The replacement of the first connection waits for its handoff when the pool is shut down.
abbrev job : ReplacementJob
job = record { index = 0; reason = ttl }

abbrev waiting : ConnectionPool
waiting = record pool { running = 2 ∷ pool.running; next_handle = 3 }

shutdown-running_example :
    contains 2 (shutdown waiting).running
    ≡ (contains 2 waiting.running && not (contains 2 (handles waiting.connections)))
shutdown-running_example = shutdown-running waiting 2

-- The orphan goes on.
orphan : contains 2 (shutdown waiting).running ≡ true
unfolding shutdown subscribe connect_each new_connection abort_all new contains distribute_tokens
    with_excess needed take drop chunks_from extend_last set_remove
orphan = refl

abbrev connection : ℕ → ℕ → ConnectionState
connection id handle = record {
  id = id;
  tokens = "a" ∷ [];
  spawned_at = handle;
  last_event_at = handle;
  handle = handle;
}

abbrev solo : ConnectionPool
solo = record (new settings) {
  connections = connection 1 0 ∷ [];
  next_handle = 1;
  running = 0 ∷ [];
}

abbrev handover : Handover
handover = record { job = job; state = connection 10001 1 }

abbrev begun : ConnectionPool
begun = record solo { next_handle = 2; running = 1 ∷ 0 ∷ [] }

solo_begins : begin clocks job 10001 solo ≡ some (handover, begun)
unfolding begin new_connection new
solo_begins = refl

Reach-slots_example : slots (swap handover begun).1 ≡ slots solo
Reach-slots_example =
    Reach-slots clocks solo
      (next (next here (began job 10001 handover begun solo_begins)) (swapped [] [] handover refl))
