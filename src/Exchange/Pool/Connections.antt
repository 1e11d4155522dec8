-- ===== src/Exchange/Pool/Connections.antt =====
-- The state of `ConnectionPool` (src/infrastructure/exchange/pool.rs, pool/state.rs, pool/spawn.rs):
-- the connections and the tasks behind them. A handle numbers a task of tokio; `running` holds those
-- that have been spawned and not aborted.
use edgelord.Common.{
  ℕ, suc, ◌≡◌, ◌∙◌, ap, refl, Bool, true, false, List, [], ◌∷◌, map, length, is_empty, set_remove,
  nat_eq, if◌then◌else◌,
}
use edgelord.Domain.Id.{TokenId}
use edgelord.Exchange.Pool.{ConnectionPoolConfig, IsValid, distribute_tokens, concat}
use edgelord.Exchange.Pool.Distribute.{concat-distribute_tokens}

pub record ConnectionState : Type 0 where
  pub id : ℕ
  pub tokens : List TokenId
  pub spawned_at : ℕ
  pub last_event_at : ℕ
  pub handle : ℕ

-- Of `SharedCounters`.
pub record SharedCounters : Type 0 where
  pub rotations : ℕ
  pub restarts : ℕ
  pub events_dropped : ℕ

pub record ConnectionPool : Type 0 where
  pub pool_config : ConnectionPoolConfig
  pub connections : List ConnectionState
  pub counters : SharedCounters
  pub has_management : Bool
  pub next_conn_id : ℕ
  pub next_handle : ℕ
  pub running : List ℕ

pub record PoolStats : Type 0 where
  pub active_connections : ℕ
  pub total_rotations : ℕ
  pub total_restarts : ℕ
  pub events_dropped : ℕ

unfoldable pub new : ConnectionPoolConfig → ConnectionPool
new c = record {
  pool_config = c;
  connections = [];
  counters = record { rotations = 0; restarts = 0; events_dropped = 0 };
  has_management = false;
  next_conn_id = 0;
  next_handle = 0;
  running = [];
}

unfoldable pub stats : ConnectionPool → PoolStats
stats p = record {
  active_connections = length p.connections;
  total_rotations = p.counters.rotations;
  total_restarts = p.counters.restarts;
  events_dropped = p.counters.events_dropped;
}

abbrev pub handles : List ConnectionState → List ℕ
handles = map (λ c. c.handle)

-- `JoinHandle::abort` of each.
unfoldable pub abort_all : List ℕ → List ℕ → List ℕ
abort_all [] running = running
abort_all (h ∷ hs) running = abort_all hs (set_remove h running)

unfoldable pub shutdown : ConnectionPool → ConnectionPool
shutdown p = record p {
  has_management = false;
  connections = [];
  running = abort_all (handles p.connections) p.running;
}

-- The two clocks when the task with a handle is spawned.
module _ (clocks : ℕ → ℕ × ℕ) where
  unfoldable pub new_connection :
      ℕ → List TokenId → ConnectionPool → ConnectionState × ConnectionPool
  new_connection id tokens p =
      let handle = p.next_handle in
      (
        record {
          id = id;
          tokens = tokens;
          spawned_at = (clocks handle).0;
          last_event_at = (clocks handle).1;
          handle = handle;
        },
        record p { next_handle = suc handle; running = handle ∷ p.running },
      )

  -- The loop of `subscribe` over the chunks.
  unfoldable pub connect_each :
      List (List TokenId) → ConnectionPool → List ConnectionState × ConnectionPool
  connect_each [] p = ([], p)
  connect_each (tokens ∷ rest) p =
      let id = suc p.next_conn_id in
      let (state, q) = new_connection id tokens (record p { next_conn_id = id }) in
      let (states, r) = connect_each rest q in (state ∷ states, r)

  unfoldable pub subscribe : List TokenId → ConnectionPool → ConnectionPool
  subscribe token_ids p =
      let q = shutdown p in
      if is_empty token_ids
      then q
      else let (states, r) = connect_each (distribute_tokens q.pool_config token_ids) q in
        record r { connections = states; has_management = true }

  tokens-connect_each :
      (parts : List (List TokenId)) (p : ConnectionPool)
      → map (λ c. c.tokens) (connect_each parts p).0 ≡ parts
  unfolding connect_each new_connection
  tokens-connect_each [] p = refl
  tokens-connect_each (tokens ∷ rest) p =
      let q = record p { next_conn_id = suc p.next_conn_id } in
      ap (◌∷◌ tokens) (tokens-connect_each rest (new_connection (suc p.next_conn_id) tokens q).1)

  -- After `subscribe` the connections of a valid pool hold the tokens, all of them and in their order.
  pub subscribe-tokens :
      (p : ConnectionPool) (token_ids : List TokenId)
      → IsValid p.pool_config
      → concat (map (λ c. c.tokens) (subscribe token_ids p).connections) ≡ token_ids
  unfolding subscribe shutdown concat
  subscribe-tokens p [] h = refl
  subscribe-tokens p (t ∷ ts) h =
      ap concat (tokens-connect_each (distribute_tokens p.pool_config (t ∷ ts)) (shutdown p))
      ∙ concat-distribute_tokens p.pool_config (t ∷ ts) h
