-- ===== src/Exchange/Pool/Forward.antt =====
-- The loop of a connection's task (src/infrastructure/exchange/pool/spawn.rs), which forwards the
-- events of its stream into the pool's channel, and the pool's end of it. Its stream's answers, the
-- reads and the closing of the channel come in any order.
use edgelord.Common.{
  ℕ, suc, ◌+◌, ◌≤◌, ◌≡◌, refl, Bool, true, false, List, [], ◌∷◌, ◌++◌, Option, none, some, length,
  length-append, ltb, if◌then◌else◌, arith,
}
use edgelord.Exchange.Event.{MarketEvent}

-- `queued`, `capacity` and `is_open` are tokio's bounded channel; `received` is what `next_event` of
-- the pool has returned.
pub record Forwarding (D : Type 0) : Type 0 where
  pub queued : List (MarketEvent D)
  pub capacity : ℕ
  pub is_open : Bool
  pub received : List (MarketEvent D)
  pub events_dropped : ℕ
  pub last_event_at : ℕ
  pub has_ended : Bool

pub data TrySend : Type 0 where
  sent full receiver_gone : TrySend

pub data Action (D : Type 0) : Type 0 where
  -- The stream's `next_event` has answered at a time.
  answer : Option (MarketEvent D) → (now_ms : ℕ) → Action D
  read : Action D
  close : Action D

module _ {D : Type 0} where
  -- `Sender::try_send`.
  unfoldable pub try_send : MarketEvent D → Forwarding D → TrySend × Forwarding D
  try_send event f =
      if f.is_open
      then if ltb (length f.queued) f.capacity
        then (sent, record f { queued = f.queued ++ (event ∷ []) })
        else (full, f)
      else (receiver_gone, f)

  -- The two `match`es of the loop.
  unfoldable pub on_answer : Option (MarketEvent D) → ℕ → Forwarding D → Forwarding D
  on_answer none now_ms f = record f { has_ended = true }
  on_answer (some event) now_ms f =
      let (outcome, g) = try_send event (record f { last_event_at = now_ms }) in
      elim outcome [
        | sent ↦ g
        | full ↦ record g { events_dropped = suc g.events_dropped }
        | receiver_gone ↦ record g { has_ended = true }
      ]

  -- `Receiver::recv`, when something is queued.
  unfoldable pub recv : List (MarketEvent D) → Forwarding D → Forwarding D
  recv [] f = f
  recv (event ∷ rest) f = record f { queued = rest; received = f.received ++ (event ∷ []) }

  unfoldable pub act : Action D → Forwarding D → Forwarding D
  act (answer event now_ms) f = if f.has_ended then f else on_answer event now_ms f
  act read f = recv f.queued f
  act close f = record f { is_open = false }

  unfoldable pub run : List (Action D) → Forwarding D → Forwarding D
  run [] f = f
  run (a ∷ acts) f = run acts (act a f)

  unfoldable pub start : ℕ → ℕ → Forwarding D
  start capacity now_ms = record {
    queued = [];
    capacity = capacity;
    is_open = true;
    received = [];
    events_dropped = 0;
    last_event_at = now_ms;
    has_ended = false;
  }

  -- Whether an action hands an event of the stream to a task that goes on, with an open channel.
  unfoldable pub offers : Action D → Forwarding D → ℕ
  offers (answer (some event) now_ms) f = if f.has_ended then 0 else if f.is_open then 1 else 0
  offers (answer none now_ms) f = 0
  offers read f = 0
  offers close f = 0

  unfoldable pub offered : List (Action D) → Forwarding D → ℕ
  offered [] f = 0
  offered (a ∷ acts) f = offers a f + offered acts (act a f)

  abbrev pub accounted : Forwarding D → ℕ
  accounted f = length f.received + length f.queued + f.events_dropped

  abbrev IsWithin : ℕ → Forwarding D → Type 0
  IsWithin capacity f = (f.capacity ≡ capacity) × (length f.queued ≤ capacity)

  recv_lem :
      (capacity : ℕ) (queued : List (MarketEvent D)) (f : Forwarding D)
      → f.queued ≡ queued
      → IsWithin capacity f
      → (accounted (recv queued f) ≡ accounted f) × IsWithin capacity (recv queued f)
  unfolding recv
  recv_lem capacity [] f e w = (refl, w)
  recv_lem capacity (q ∷ qs) f e w = ground (arith, e, w, length-append f.received (q ∷ []))

  act_lem :
      (capacity : ℕ) (a : Action D) (f : Forwarding D)
      → IsWithin capacity f
      → (accounted (act a f) ≡ accounted f + offers a f) × IsWithin capacity (act a f)
  unfolding act offers on_answer try_send
  act_lem capacity (answer none now_ms) f w = ground (arith, w)
  act_lem capacity (answer (some event) now_ms) f w =
      ground (arith, w, length-append f.queued (event ∷ []))
  act_lem capacity read f w = ground (arith, recv_lem capacity f.queued f refl w)
  act_lem capacity close f w = ground (arith, w)

  run_lem :
      (capacity : ℕ) (acts : List (Action D)) (f : Forwarding D)
      → IsWithin capacity f
      → (accounted (run acts f) ≡ accounted f + offered acts f) × IsWithin capacity (run acts f)
  unfolding run offered
  run_lem capacity [] f w = (omega arith, w)
  run_lem capacity (a ∷ acts) f w =
      let (here, within) = act_lem capacity a f w in
      let (later, last) = run_lem capacity acts (act a f) within in
      (omega (arith, here, later), last)

  -- Whatever the order of answers, reads and the closing, each event that the stream gives while the
  -- channel is open is received, queued or counted as dropped, and the queue keeps to its capacity.
  pub run-start :
      (capacity now_ms : ℕ) (acts : List (Action D))
      → (accounted (run acts (start capacity now_ms)) ≡ offered acts (start capacity now_ms))
        × (length (run acts (start capacity now_ms)).queued ≤ capacity)
  unfolding start
  run-start capacity now_ms acts =
      let (all, within) = run_lem capacity acts (start capacity now_ms) (refl, omega arith) in
      (omega (arith, all), within.1)
