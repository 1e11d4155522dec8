-- ===== src/Polymarket/Dedup.antt =====
-- src/adapter/outbound/polymarket/dedup.rs: the messages that come twice. The cache is a map from keys
-- to the time of their entry; instants and durations are in seconds. The text of a decimal is
-- rust_decimal's.
use Prim.Native.String.{◌++◌ as append, slice}
use edgelord.Common.{
  ℕ, zero, suc, ◌+◌, ◌-◌, ◌/◌, ◌%◌, Bool, true, false, List, [], ◌∷◌, String, Option, none, some,
  length, lookup, insert, remove, string_eq, ltb, leb, if◌then◌else◌, filter,
}
use edgelord.Domain.Id.{TokenId}
use edgelord.Domain.Book.{Book, PriceLevel, best_bid, best_ask}
use edgelord.Exchange.Event.{
  MarketEvent, connected, disconnected, book_snapshot, book_delta, market_settled,
}

pub record PolymarketDeduplicator : Type 0 where
  pub cache : List (String × ℕ)
  pub ttl : ℕ
  pub max_entries : ℕ
  pub enabled : Bool

-- `Display` of a `usize`; a turn for each digit.
unfoldable pub show_from : ℕ → ℕ → String
show_from zero n = ""
show_from (suc fuel) n =
    let rest = show_from fuel (n / 10) in
    let digit = slice "0123456789" (n % 10) (n % 10 + 1) in
    if ltb n 10 then digit else append rest digit

unfoldable pub show_count : ℕ → String
unfolding show_from
show_count n = show_from (suc n) n

module _ {D : Type 0} (show : D → String) where
  unfoldable pub level_text : String → Option (PriceLevel D) → String
  level_text side none = ""
  level_text side (some level) =
      append side (append (show level.size) (append "@" (show level.price)))

  unfoldable pub book_key : String → TokenId → Book D → String
  book_key kind t book =
      let bid = level_text ":b" (best_bid book) in
      let ask = level_text ":a" (best_ask book) in
      let depth =
        append ":d"
          (append (show_count (length book.bids)) (append ":" (show_count (length book.asks)))) in
      append (append kind t) (append bid (append ask depth))

  unfoldable pub make_key : MarketEvent D → Option String
  make_key (book_snapshot t book) = some (book_key "snap:" t book)
  make_key (book_delta t book) = some (book_key "delta:" t book)
  make_key connected = none
  make_key (disconnected reason) = none
  make_key (market_settled m outcome payout) = none

-- `sort_by` on the times: stable.
unfoldable pub insert_by_time : String × ℕ → List (String × ℕ) → List (String × ℕ)
insert_by_time e [] = e ∷ []
insert_by_time e (f ∷ fs) =
    let rest = insert_by_time e fs in if leb e.1 f.1 then e ∷ f ∷ fs else f ∷ rest

unfoldable pub sort_by_time : List (String × ℕ) → List (String × ℕ)
sort_by_time [] = []
sort_by_time (e ∷ es) = insert_by_time e (sort_by_time es)

-- The loop over the first entries.
unfoldable pub remove_first : ℕ → List (String × ℕ) → List (String × ℕ) → List (String × ℕ)
remove_first zero entries cache = cache
remove_first (suc n) [] cache = cache
remove_first (suc n) (e ∷ entries) cache = remove_first n entries (remove e.0 cache)

unfoldable pub gc : ℕ → PolymarketDeduplicator → PolymarketDeduplicator
gc now d =
    let kept = filter (λ e. ltb (now - e.1) d.ttl) d.cache in
    record d {
      cache =
          if ltb d.max_entries (length kept)
          then remove_first (length kept - d.max_entries) (sort_by_time kept) kept
          else kept;
    }

-- The part of `is_duplicate` for a message that is not in the cache, or no more.
unfoldable pub remember : String → ℕ → PolymarketDeduplicator → PolymarketDeduplicator
remember key now d =
    let e = record d { cache = insert key now d.cache } in
    if ltb d.max_entries (length e.cache) then gc now e else e

unfoldable pub is_fresh : String → ℕ → PolymarketDeduplicator → Bool
is_fresh key now d = elim (lookup key d.cache) [
  | none ↦ false
  | some entry ↦ ltb (now - entry) d.ttl
]

unfoldable pub is_duplicate :
    {D : Type 0}
    → (D → String)
    → MarketEvent D
    → ℕ
    → PolymarketDeduplicator
    → Bool × PolymarketDeduplicator
is_duplicate show event now d =
    if d.enabled
    then elim (make_key show event) [
      | none ↦ (false, d)
      | some key ↦ if is_fresh key now d then (true, d) else (false, remember key now d)
    ]
    else (false, d)

unfoldable pub cache_size : PolymarketDeduplicator → ℕ
cache_size d = length d.cache
