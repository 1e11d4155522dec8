-- ===== src/Tracker/Defs.antt =====
-- The state of the tracker and its operations.
use edgelord.Common.{
  ℕ, ◌+◌, ◌%◌, ◌^◌, List, [], ◌∷◌, ◌++◌, map, Option, none, some, if◌then◌else◌, nat_beq, length,
  filter,
}
use edgelord.Money.{Decimal, sum}
use edgelord.Domain.Id.{PositionId}
use edgelord.Domain.Position.{Position, is_open, status_is_closed}
use edgelord.Domain.Position

pub record Tracker (D : Type 0) : Type 0 where
  pub positions : List (Position D)
  pub next_id_field : PositionId

module _ {D : Type 0} where
  unfoldable pub init : Tracker D
  init = record { positions = []; next_id_field = 1 }

  -- The identifier, and the tracker whose `u64` counter has moved on.
  unfoldable pub next_id : Tracker D → PositionId × Tracker D
  next_id t = (t.next_id_field, record t { next_id_field = (t.next_id_field + 1) % 2 ^ 64 })

  unfoldable pub add : Tracker D → Position D → Tracker D
  add t p = record t { positions = t.positions ++ (p ∷ []) }

  abbrev pub open_positions : List (Position D) → List (Position D)
  open_positions = filter is_open

  unfoldable pub open_count : Tracker D → ℕ
  open_count t = length (open_positions t.positions)

  -- `Iterator::find` by identifier, for `get` and `get_mut`.
  unfoldable pub get : PositionId → List (Position D) → Option (Position D)
  get id [] = none
  get id (p ∷ ps) = if nat_beq p.id id then some p else get id ps

  -- The write through `get_mut`: the first position with the identifier is closed.
  unfoldable pub close_first : PositionId → D → List (Position D) → List (Position D)
  close_first id pnl [] = []
  close_first id pnl (p ∷ ps) =
      if nat_beq p.id id then Position.close p pnl ∷ ps else p ∷ close_first id pnl ps

  unfoldable pub close : Tracker D → PositionId → D → Tracker D × Option D
  close t id pnl = elim (get id t.positions) [
    | none ↦ (t, none)
    | some p ↦
        if status_is_closed p.status
        then (t, none)
        else (record t { positions = close_first id pnl t.positions }, some pnl)
  ]

  unfoldable pub closed_positions : List (Position D) → List (Position D)
  closed_positions = filter (λ p. status_is_closed p.status)

module _ {D : Type 0} ⦃d : Decimal D⦄ where
  abbrev pub costs : List (Position D) → List D
  costs = map (λ p. p.entry_cost)

  -- The sum of the entry costs of the open positions.
  unfoldable pub total_exposure : List (Position D) → D
  total_exposure ps = sum (costs (open_positions ps))
