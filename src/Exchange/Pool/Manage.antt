-- ===== src/Exchange/Pool/Manage.antt =====
-- src/infrastructure/exchange/pool/manage.rs: which connections are to be replaced.
use edgelord.Common.{
  ℕ, zero, suc, ◌+◌, ◌-◌, ◌*◌, ◌<◌, ◌≡◌, ◌∙◌, sym, ap, refl, Bool, ◌&&◌, List, [], ◌∷◌, Option,
  none, some, ◌>>=◌, ltb, leb, nat_beq, if◌then◌else◌, get_elem?, arith,
}
use edgelord.Exchange.Pool.{ConnectionPoolConfig}
use edgelord.Exchange.Pool.Connections.{ConnectionState}

-- Of src/infrastructure/exchange/pool/replace.rs.
pub data ReplacementReason : Type 0 where
  ttl silent crashed : ReplacementReason

pub record ReplacementJob : Type 0 where
  pub index : ℕ
  pub reason : ReplacementReason

-- The connections at a tick: `is_finished` of a task, the clock in nanoseconds and the
-- epoch in milliseconds, the time of the last event as the task keeps it.
pub record Tick : Type 0 where
  pub is_finished : ℕ → Bool
  pub now : ℕ
  pub now_ms : ℕ
  pub last_event_at : ℕ → ℕ

module _ (c : ConnectionPoolConfig) (t : Tick) where
  -- The body of the `filter_map`.
  unfoldable pub reason_of : ConnectionState → Option ReplacementReason
  reason_of s =
      let last = t.last_event_at s.handle in
      if t.is_finished s.handle
      then some crashed
      else if leb ((c.connection_ttl_secs - c.preemptive_reconnect_secs) * 1000000000)
          (t.now - s.spawned_at)
      then some ttl
      else if ltb 0 last && ltb (c.max_silent_secs * 1000) (t.now_ms - last)
      then some silent
      else none

  abbrev job : ℕ → Option ReplacementReason → List ReplacementJob → List ReplacementJob
  job i none rest = rest
  job i (some r) rest = record { index = i; reason = r } ∷ rest

  unfoldable pub jobs_from : ℕ → List ConnectionState → List ReplacementJob
  jobs_from i [] = []
  jobs_from i (s ∷ ss) = let rest = jobs_from (suc i) ss in job i (reason_of s) rest

  abbrev pub jobs : List ConnectionState → List ReplacementJob
  jobs ss = jobs_from 0 ss

  -- The reason of the job for an index.
  unfoldable pub reason_at : ℕ → List ReplacementJob → Option ReplacementReason
  reason_at i [] = none
  reason_at i (j ∷ js) = if nat_beq j.index i then some j.reason else reason_at i js

  reason_at_before :
      (i k : ℕ) (ss : List ConnectionState) → i < k → reason_at i (jobs_from k ss) ≡ none
  unfolding reason_at jobs_from
  reason_at_before i k [] h = refl
  reason_at_before i k (s ∷ ss) h =
      let later = reason_at_before i (suc k) ss (omega arith) in ground (arith, later)

  reason_at-jobs_from :
      (i k : ℕ) (ss : List ConnectionState)
      → reason_at (k + i) (jobs_from k ss) ≡ (get_elem? ss i >>= reason_of)
  unfolding reason_at jobs_from
  reason_at-jobs_from i k [] = refl
  reason_at-jobs_from zero k (s ∷ ss) =
      let none_later = reason_at_before (k + 0) (suc k) ss (omega arith) in
      ground (arith, none_later)
  reason_at-jobs_from (suc i) k (s ∷ ss) =
      let moved : suc k + i ≡ k + suc i = omega arith in
      let later = reason_at-jobs_from i (suc k) ss in
      ground (arith, later, ap (λ n. reason_at n (jobs_from (suc k) ss)) moved)

  -- A connection is replaced exactly when it has a reason: its task has ended, its age has reached
  -- the time to live less the margin, or no event has come for too long; in this order.
  pub reason_at-jobs :
      (i : ℕ) (ss : List ConnectionState) → reason_at i (jobs ss) ≡ (get_elem? ss i >>= reason_of)
  reason_at-jobs i ss =
      let moved : 0 + i ≡ i = omega arith in
      ap (λ n. reason_at n (jobs ss)) (sym moved) ∙ reason_at-jobs_from i 0 ss
