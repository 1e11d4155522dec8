-- ===== src/Exchange/Pool.antt =====
-- src/infrastructure/exchange/pool.rs and `ConnectionPoolConfig` of src/infrastructure/config/pool.rs:
-- the checks of a pool's configuration, and the tokens of each connection.
pub mod Chunks
pub mod Distribute
pub mod Connections
pub mod Shutdown
pub mod Manage
pub mod Handoff
pub mod Replace
pub mod Rotation
pub mod Forward
use edgelord.Common.{
  ℕ, zero, suc, ◌+◌, ◌-◌, ◌/◌, ◌<◌, ◌↔◌, ◌≡◌, List, [], ◌∷◌, ◌++◌, map, String, ok, err, Done,
  length, leb, ltb, nat_beq, if◌then◌else◌, arith,
}
use edgelord.Domain.Id.{TokenId}

-- Of src/error.rs.
pub data ConfigError : Type 0 where
  missing_field : (field : String) → ConfigError
  invalid_value : (field reason : String) → ConfigError

pub record ConnectionPoolConfig : Type 0 where
  pub max_connections : ℕ
  pub subscriptions_per_connection : ℕ
  pub connection_ttl_secs : ℕ
  pub preemptive_reconnect_secs : ℕ
  pub health_check_interval_secs : ℕ
  pub max_silent_secs : ℕ
  pub channel_capacity : ℕ

abbrev must_be_positive : String → Done ConfigError
must_be_positive field = err (invalid_value field "must be > 0")

unfoldable pub validate_config : ConnectionPoolConfig → Done ConfigError
validate_config c =
    if nat_beq c.connection_ttl_secs 0
    then must_be_positive "connection_ttl_secs"
    else if leb c.connection_ttl_secs c.preemptive_reconnect_secs
    then err (invalid_value "preemptive_reconnect_secs" "must be < connection_ttl_secs")
    else if nat_beq c.max_connections 0
    then must_be_positive "max_connections"
    else if nat_beq c.subscriptions_per_connection 0
    then must_be_positive "subscriptions_per_connection"
    else if nat_beq c.health_check_interval_secs 0
    then must_be_positive "health_check_interval_secs"
    else if nat_beq c.max_silent_secs 0
    then must_be_positive "max_silent_secs"
    else if nat_beq c.channel_capacity 0
    then must_be_positive "channel_capacity"
    else ok tt

-- What the pool relies on.
abbrev pub IsValid : ConnectionPoolConfig → Type 0
IsValid c =
    (c.preemptive_reconnect_secs < c.connection_ttl_secs)
    × (0 < c.max_connections)
    × (0 < c.subscriptions_per_connection)
    × (0 < c.health_check_interval_secs)
    × (0 < c.max_silent_secs)
    × (0 < c.channel_capacity)

-- A configuration is accepted exactly when the reconnection comes before the end of a connection's
-- life and the limits, the interval, the silence and the capacity are positive.
pub validate_config-IsValid : (c : ConnectionPoolConfig) → (validate_config c ≡ ok tt) ↔ IsValid c
unfolding validate_config
validate_config-IsValid c = ground arith

module _ {ℓ} {A : Type ℓ} where
  unfoldable pub take : ℕ → List A → List A
  take zero xs = []
  take (suc n) [] = []
  take (suc n) (x ∷ xs) = x ∷ take n xs

  unfoldable pub drop : ℕ → List A → List A
  drop zero xs = xs
  drop (suc n) [] = []
  drop (suc n) (x ∷ xs) = drop n xs

  -- `slice::chunks`; as many turns as there are elements are enough when the size is not 0.
  unfoldable pub chunks_from : ℕ → ℕ → List A → List (List A)
  chunks_from zero size xs = []
  chunks_from (suc fuel) size [] = []
  chunks_from (suc fuel) size (x ∷ xs) =
      take size (x ∷ xs) ∷ chunks_from fuel size (drop size (x ∷ xs))

  abbrev pub chunks : ℕ → List A → List (List A)
  chunks size xs = chunks_from (length xs) size xs

  unfoldable pub concat : List (List A) → List A
  concat [] = []
  concat (xs ∷ xss) = xs ++ concat xss

  abbrev pub total : List (List A) → ℕ
  total [] = 0
  total (xs ∷ xss) = length xs + total xss

  -- `last_mut` and `extend_from_slice`.
  unfoldable pub extend_last : List A → List (List A) → List (List A)
  extend_last more [] = []
  extend_last more (xs ∷ []) = (xs ++ more) ∷ []
  extend_last more (xs ∷ ys ∷ yss) = xs ∷ extend_last more (ys ∷ yss)

-- `usize::div_ceil`.
abbrev pub div_ceil : ℕ → ℕ → ℕ
div_ceil a b = (a + (b - 1)) / b

unfoldable pub needed : ConnectionPoolConfig → ℕ → ℕ
needed c tokens =
    let ceil = div_ceil tokens c.subscriptions_per_connection in
    if leb ceil c.max_connections then ceil else c.max_connections

-- The tokens past the limit go to the last connection.
unfoldable pub with_excess : List TokenId → List (List TokenId) → List (List TokenId)
with_excess token_ids parts =
    if ltb (total parts) (length token_ids)
    then extend_last (drop (total parts) token_ids) parts
    else parts

unfoldable pub distribute_tokens : ConnectionPoolConfig → List TokenId → List (List TokenId)
distribute_tokens c token_ids =
    with_excess token_ids
      (take (needed c (length token_ids)) (chunks c.subscriptions_per_connection token_ids))
