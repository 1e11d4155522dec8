-- ===== src/Exchange/Pool/Distribute.antt =====
-- What `distribute_tokens` of src/infrastructure/exchange/pool.rs does with the tokens.
use native.Mathlib.Nat.{le-div_iff_mul-le, lt-div-mul-add}
use mathlib.Core.List.{append-nil}
use edgelord.Common.{
  ℕ, zero, suc, ◌+◌, ◌-◌, ◌*◌, ◌≤◌, ◌<◌, ◌≡◌, sym, subst, Bool-cases, inl, inr, refl, List, [], ◌∷◌,
  ◌++◌, length, ltb, All, arith,
}
use edgelord.Domain.Id.{TokenId}
use edgelord.Exchange.Pool.{
  ConnectionPoolConfig, IsValid, take, drop, chunks_from, chunks, concat, total, distribute_tokens,
  needed, with_excess,
}
use edgelord.Exchange.Pool.Chunks.{
  length-take-le, drop_all, concat-chunks, concat-extend_last, length-extend_last, total-chunks,
  chunks-capped,
}

concat-with_excess :
    (token_ids ts : List TokenId) (parts : List (List TokenId))
    → concat (ts ∷ parts) ++ drop (total (ts ∷ parts)) token_ids ≡ token_ids
    → concat (with_excess token_ids (ts ∷ parts)) ≡ token_ids
unfolding with_excess
concat-with_excess token_ids ts parts h =
    let all = total (ts ∷ parts) in
    elim (Bool-cases (ltb all (length token_ids))) [
      | inl more ↦ ground (arith, more, h, concat-extend_last (drop all token_ids) ts parts)
      | inr none ↦
          let empty = drop_all all token_ids (ground arith) in
          ground (arith, none, h, empty, append-nil (concat (ts ∷ parts)))
    ]

with_excess_none :
    (token_ids : List TokenId) (parts : List (List TokenId))
    → total parts ≡ length token_ids
    → with_excess token_ids parts ≡ parts
unfolding with_excess
with_excess_none token_ids parts h = ground arith

length-with_excess :
    (token_ids : List TokenId) (parts : List (List TokenId))
    → length (with_excess token_ids parts) ≡ length parts
unfolding with_excess
length-with_excess token_ids parts =
    ground (arith, length-extend_last (drop (total parts) token_ids) parts)

-- With no token there is no connection; with one there is at least one.
needed_pos : (c : ConnectionPoolConfig) (n : ℕ) → IsValid c → 0 < n → 0 < needed c n
unfolding needed
needed_pos c n h p =
    let size = c.subscriptions_per_connection in
    ground (
      arith,
      (le-div_iff_mul-le {k = size} {x = 1} {y = n + (size - 1)} (omega arith)).1 (omega arith),
    )

needed_capped : (c : ConnectionPoolConfig) (n : ℕ) → needed c n ≤ c.max_connections
unfolding needed
needed_capped c n = ground arith

needed_enough :
    (c : ConnectionPoolConfig) (n : ℕ)
    → IsValid c
    → n ≤ c.max_connections * c.subscriptions_per_connection
    → n ≤ needed c n * c.subscriptions_per_connection
unfolding needed
needed_enough c n h fits =
    let size = c.subscriptions_per_connection in
    let above = lt-div-mul-add {a = n + (size - 1)} {b = size} (omega arith) in
    ground (arith, above)

no_parts : (k size : ℕ) → concat (with_excess [] (take k (chunks size []))) ≡ []
unfolding take chunks_from with_excess concat
no_parts zero size = refl
no_parts (suc k) size = refl

concat-parts :
    (k size : ℕ) (t : TokenId) (ts : List TokenId)
    → 0 < k
    → concat (with_excess (t ∷ ts) (take k (chunks size (t ∷ ts)))) ≡ t ∷ ts
unfolding take chunks_from
concat-parts zero size t ts p = absurd (omega arith)
concat-parts (suc k) size t ts p =
    let all = t ∷ ts in
    concat-with_excess all (take size all) (take k (chunks_from (length ts) size (drop size all)))
      (concat-chunks (suc k) (length all) size all)

-- The connections hold the tokens, all of them and in their order.
pub concat-distribute_tokens :
    (c : ConnectionPoolConfig) (token_ids : List TokenId)
    → IsValid c
    → concat (distribute_tokens c token_ids) ≡ token_ids
unfolding distribute_tokens
concat-distribute_tokens c [] h = no_parts (needed c 0) c.subscriptions_per_connection
concat-distribute_tokens c (t ∷ ts) h =
    concat-parts (needed c (length (t ∷ ts))) c.subscriptions_per_connection t ts
      (needed_pos c (length (t ∷ ts)) h (omega arith))

-- There are at most `max_connections` connections.
pub length-distribute_tokens :
    (c : ConnectionPoolConfig) (token_ids : List TokenId)
    → length (distribute_tokens c token_ids) ≤ c.max_connections
unfolding distribute_tokens
length-distribute_tokens c token_ids =
    let n = needed c (length token_ids) in
    let parts = chunks c.subscriptions_per_connection token_ids in
    omega (
      arith,
      length-with_excess token_ids (take n parts),
      length-take-le n parts,
      needed_capped c (length token_ids),
    )

-- When the tokens fit, no connection has more than its share.
pub distribute_tokens-share :
    (c : ConnectionPoolConfig) (token_ids : List TokenId)
    → IsValid c
    → length token_ids ≤ c.max_connections * c.subscriptions_per_connection
    → All (λ ts. length ts ≤ c.subscriptions_per_connection) (distribute_tokens c token_ids)
unfolding distribute_tokens with_excess
distribute_tokens-share c token_ids h fits =
    let n = length token_ids in
    let k = needed c n in
    let size = c.subscriptions_per_connection in
    let all =
      total-chunks k n size token_ids (omega arith) (omega arith) (needed_enough c n h fits) in
    subst (All (λ ts. length ts ≤ size))
      (sym (with_excess_none token_ids (take k (chunks size token_ids)) all))
      (chunks-capped k n size token_ids)
