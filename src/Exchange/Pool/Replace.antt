-- ===== src/Exchange/Pool/Replace.antt =====
-- `replace_connection` of src/infrastructure/exchange/pool/replace.rs, cut where it waits: the jobs of
-- a tick run concurrently (`join_all` in pool/manage.rs), so that their parts come in any order.
use edgelord.Common.{
  ◌++◌, ℕ, suc, ◌≡◌, Bool, true, false, List, ◌∷◌, Option, none, some, get_elem?, set, set_remove,
  nat_eq, if◌then◌else◌,
}
use edgelord.Exchange.Pool.Connections.{ConnectionState, ConnectionPool, new_connection}
use edgelord.Exchange.Pool.Manage.{ReplacementJob, ReplacementReason, ttl, silent, crashed}

-- A replacement that waits for its handoff, and a replaced task that drains.
pub record Handover : Type 0 where
  pub job : ReplacementJob
  pub state : ConnectionState

pub record Draining : Type 0 where
  pub reason : ReplacementReason
  pub old_handle : ℕ

pub record Managed : Type 0 where
  pub pool : ConnectionPool
  pub handovers : List Handover
  pub draining : List Draining

unfoldable pub is_rotation : ReplacementReason → Bool
is_rotation ttl = true
is_rotation silent = false
is_rotation crashed = false

abbrev pub abort : ℕ → ConnectionPool → ConnectionPool
abort handle p = record p { running = set_remove handle p.running }

-- Up to the wait: the tokens are copied and the replacement is spawned.
unfoldable pub begin :
    (ℕ → ℕ × ℕ) → ReplacementJob → ℕ → ConnectionPool → Option (Handover × ConnectionPool)
begin clocks job new_id p = elim (get_elem? p.connections job.index) [
  | none ↦ none
  | some c ↦
      let (state, q) = new_connection clocks new_id c.tokens p in
      some (record { job = job; state = state }, q)
]

-- After the wait, if the replacement has died.
unfoldable pub give_up : Handover → ConnectionPool → ConnectionPool
give_up h p = abort h.state.handle p

-- After the wait, otherwise: the swap under the lock.
unfoldable pub swap : Handover → ConnectionPool → Option Draining × ConnectionPool
swap h p = elim (get_elem? p.connections h.job.index) [
  | none ↦ (none, abort h.state.handle p)
  | some old ↦ (
    some (record { reason = h.job.reason; old_handle = old.handle }),
    record p { connections = set p.connections h.job.index h.state },
  )
]

-- After the grace period.
unfoldable pub drain : Draining → ConnectionPool → ConnectionPool
drain d p =
    let q = abort d.old_handle p in
    record q {
      counters =
          if is_rotation d.reason
          then record q.counters { rotations = suc q.counters.rotations }
          else record q.counters { restarts = suc q.counters.restarts };
    }

abbrev and_draining : Option Draining → List Draining → List Draining
and_draining none ds = ds
and_draining (some d) ds = d ∷ ds

-- One part of one job; the jobs that wait are taken from any place in their list.
pub data Step (clocks : ℕ → ℕ × ℕ) (m : Managed) : Managed → Type 0 where
  began :
      (job : ReplacementJob) (new_id : ℕ) (h : Handover) (p : ConnectionPool)
      → begin clocks job new_id m.pool ≡ some (h, p)
      → Step clocks m (record m { pool = p; handovers = h ∷ m.handovers })
  gave_up :
      (before after : List Handover) (h : Handover)
      → m.handovers ≡ before ++ (h ∷ after)
      → Step clocks m (record m { pool = give_up h m.pool; handovers = before ++ after })
  swapped :
      (before after : List Handover) (h : Handover)
      → m.handovers ≡ before ++ (h ∷ after)
      → Step clocks m (record {
        pool = (swap h m.pool).1;
        handovers = before ++ after;
        draining = and_draining (swap h m.pool).0 m.draining;
      })
  drained :
      (before after : List Draining) (d : Draining)
      → m.draining ≡ before ++ (d ∷ after)
      → Step clocks m (record m { pool = drain d m.pool; draining = before ++ after })

pub data Reach (clocks : ℕ → ℕ × ℕ) (m : Managed) : Managed → Type 0 where
  here : Reach clocks m m
  next : {n o : Managed} → Reach clocks m n → Step clocks n o → Reach clocks m o
