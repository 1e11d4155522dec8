-- ===== src/Exchange/Pool/Shutdown.antt =====
-- Which tasks run after `subscribe` and `shutdown` (src/infrastructure/exchange/pool.rs).
use edgelord.Common.{
  ℕ, suc, ◌≡◌, true, not, ◌&&◌, List, [], ◌∷◌, contains, contains-set_remove, set_remove, nat_eq,
  ==_refl, All, arith,
}
use edgelord.Domain.Id.{TokenId}
use edgelord.Exchange.Pool.{distribute_tokens}
use edgelord.Exchange.Pool.Connections.{
  ConnectionPool, handles, abort_all, shutdown, new_connection, connect_each, subscribe,
}

contains-abort_all :
    (h : ℕ) (gone running : List ℕ)
    → contains h (abort_all gone running) ≡ (contains h running && not (contains h gone))
unfolding abort_all contains
contains-abort_all h [] running = ground arith
contains-abort_all h (g ∷ gone) running =
    ground
      (arith, contains-abort_all h gone (set_remove g running), contains-set_remove g h running)

-- After `shutdown` exactly the tasks run that ran before and are not behind a connection of the list:
-- among these is a replacement that is still being handed over.
pub shutdown-running :
    (p : ConnectionPool) (h : ℕ)
    → contains h (shutdown p).running
      ≡ (contains h p.running && not (contains h (handles p.connections)))
unfolding shutdown
shutdown-running p h = contains-abort_all h (handles p.connections) p.running

module _ (clocks : ℕ → ℕ × ℕ) where
  connect_each_keeps :
      (h : ℕ) (parts : List (List TokenId)) (p : ConnectionPool)
      → contains h p.running ≡ true
      → contains h (connect_each clocks parts p).1.running ≡ true
  unfolding connect_each new_connection contains
  connect_each_keeps h [] p r = r
  connect_each_keeps h (tokens ∷ rest) p r =
      let q = record p { next_conn_id = suc p.next_conn_id } in
      connect_each_keeps h rest (new_connection clocks (suc p.next_conn_id) tokens q).1
        (ground (arith, r))

  connect_each-running :
      (parts : List (List TokenId)) (p : ConnectionPool)
      → All
          (λ c. contains c.handle (connect_each clocks parts p).1.running ≡ true)
          (connect_each clocks parts p).0
  unfolding connect_each new_connection contains
  connect_each-running [] p = tt
  connect_each-running (tokens ∷ rest) p =
      let q = record p { next_conn_id = suc p.next_conn_id } in
      let next = (new_connection clocks (suc p.next_conn_id) tokens q).1 in
      (
        connect_each_keeps p.next_handle rest next (ground (arith, ==_refl p.next_handle)),
        connect_each-running rest next,
      )

  -- After `subscribe` the task of every connection runs.
  pub subscribe-running :
      (p : ConnectionPool) (token_ids : List TokenId)
      → All
          (λ c. contains c.handle (subscribe clocks token_ids p).running ≡ true)
          (subscribe clocks token_ids p).connections
  unfolding subscribe shutdown
  subscribe-running p [] = tt
  subscribe-running p (t ∷ ts) =
      connect_each-running (distribute_tokens p.pool_config (t ∷ ts)) (shutdown p)
