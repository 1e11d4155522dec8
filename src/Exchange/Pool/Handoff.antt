-- ===== src/Exchange/Pool/Handoff.antt =====
-- `await_handoff` of src/infrastructure/exchange/pool/replace.rs: the wait for the first event of a
-- replacement, with durations in milliseconds.
use edgelord.Common.{
  ℕ, zero, suc, ◌+◌, ◌*◌, ◌/◌, ◌≤◌, ◌<◌, ◌≡◌, ◌≢◌, Option-cases, inl, inr, Bool, true, false,
  Option, none, some, ltb, leb, if◌then◌else◌, arith,
}

-- The clock, tokio's `sleep`, and what the replacement's task shows.
pub record Probe (W : Type 0) : Type 0 where
  pub now : W → ℕ
  pub sleep : ℕ → W → W
  pub last_event_at : W → ℕ
  pub is_finished : W → Bool

-- `HANDOFF_POLL_INTERVAL`.
abbrev pub handoff_poll_interval : ℕ
handoff_poll_interval = 100

module _ {W : Type 0} (x : Probe W) where
  -- The loop, for a number of turns.
  unfoldable pub poll : ℕ → (initial_ts deadline : ℕ) → W → Option Bool
  poll zero initial_ts deadline w = none
  poll (suc fuel) initial_ts deadline w =
      let v = x.sleep handoff_poll_interval w in
      let rest = poll fuel initial_ts deadline v in
      if ltb initial_ts (x.last_event_at v)
      then some true
      else if x.is_finished v
      then some false
      else if leb deadline (x.now v)
      then some true
      else rest

  unfoldable pub await_handoff : ℕ → (initial_ts timeout : ℕ) → W → Option Bool
  await_handoff fuel initial_ts timeout w = poll fuel initial_ts (x.now w + timeout) w

  poll_answers :
      ((ms : ℕ) (w : W) → x.now w + ms ≤ x.now (x.sleep ms w))
      → (fuel initial_ts deadline : ℕ) (w : W)
      → deadline ≤ x.now w + suc fuel * handoff_poll_interval
      → poll (suc fuel) initial_ts deadline w ≢ none
  unfolding poll
  poll_answers slept zero initial_ts deadline w d e =
      let later = slept handoff_poll_interval w in ground (arith, later)
  poll_answers slept (suc fuel) initial_ts deadline w d e =
      let later = slept handoff_poll_interval w in
      let v = x.sleep handoff_poll_interval w in
      poll_answers slept fuel initial_ts deadline v (omega (arith, later)) (ground (arith, e))

  -- The wait ends, if a sleep lasts at least its duration: one turn more than the poll intervals in
  -- the timeout is enough.
  pub await_handoff_terminates :
      ((ms : ℕ) (w : W) → x.now w + ms ≤ x.now (x.sleep ms w))
      → (fuel initial_ts timeout : ℕ) (w : W) → timeout / handoff_poll_interval < fuel
      → (answer : Bool) × (await_handoff fuel initial_ts timeout w ≡ some answer)
  unfolding await_handoff
  await_handoff_terminates slept zero initial_ts timeout w enough = absurd (omega arith)
  await_handoff_terminates slept (suc fuel) initial_ts timeout w enough =
      let deadline = x.now w + timeout in
      let answers = poll_answers slept fuel initial_ts deadline w (omega arith) in
      elim (Option-cases (poll (suc fuel) initial_ts deadline w)) [
        | inl none_yet ↦ absurd (answers none_yet)
        | inr (answer, e) ↦ (answer, e)
      ]
