-- ===== src/Polymarket/Eviction.antt =====
-- What the cache of src/adapter/outbound/polymarket/dedup.rs hides.
use edgelord.Common.{
  ℕ, suc, ◌-◌, ◌≤◌, ◌<◌, ◌≡◌, ◌∙◌, ap, refl, true, false, List, [], ◌∷◌, String, some, length,
  lookup, insert, lookup-insert, ==_refl, string_eq, arith, inl, inr, Option-cases, Bool-cases,
  ◌==◌, ◌+◌, All,
}
use edgelord.Domain.Id.{TokenId}
use edgelord.Domain.Book.{Book, best_bid, best_ask}
use edgelord.Exchange.Event.{MarketEvent, book_snapshot}
use edgelord.Polymarket.Dedup.{
  PolymarketDeduplicator, make_key, book_key, gc, remember, is_fresh, is_duplicate,
}

length-insert-le :
    (key : String) (now : ℕ) (es : List (String × ℕ)) → length (insert key now es) ≤ suc (length es)
unfolding insert
length-insert-le key now [] = omega arith
length-insert-le key now (e ∷ es) = let rest = length-insert-le key now es in ground (arith, rest)

lookup-remember :
    (key : String) (now : ℕ) (d : PolymarketDeduplicator)
    → length d.cache < d.max_entries
    → lookup key (remember key now d).cache ≡ some now
unfolding remember
lookup-remember key now d room =
    ground (
      arith,
      room,
      length-insert-le key now d.cache,
      lookup-insert key key now d.cache,
      ==_refl key,
    )

ttl-remember :
    (key : String) (now : ℕ) (d : PolymarketDeduplicator)
    → ((remember key now d).ttl ≡ d.ttl) × ((remember key now d).enabled ≡ d.enabled)
unfolding remember gc
ttl-remember key now d = ground arith

book_key_shallow :
    {D : Type 0} (show : D → String) (kind : String) (t : TokenId) (b later : Book D)
    → best_bid later ≡ best_bid b
    → best_ask later ≡ best_ask b
    → length later.bids ≡ length b.bids
    → length later.asks ≡ length b.asks
    → book_key show kind t later ≡ book_key show kind t b
unfolding book_key
book_key_shallow show kind t b later bid ask bids asks = cc (bid, ask, bids, asks)

-- The cache has an entry for the key that is not older than a moment.
record HasEntry (key : String) (at : ℕ) (d : PolymarketDeduplicator) : Type 0 where
  time : ℕ
  found : lookup key d.cache ≡ some time
  later : at ≤ time

record KeepsSettings (d e : PolymarketDeduplicator) : Type 0 where
  enabled : e.enabled ≡ d.enabled
  ttl : e.ttl ≡ d.ttl
  max_entries : e.max_entries ≡ d.max_entries
  grows : length e.cache ≤ suc (length d.cache)

KeepsSettings-remember :
    (key : String) (now : ℕ) (d : PolymarketDeduplicator)
    → length d.cache < d.max_entries
    → KeepsSettings d (remember key now d)
unfolding remember
KeepsSettings-remember key now d room =
    let less = length-insert-le key now d.cache in
    record {
      enabled = ground (arith, room, less);
      ttl = ground (arith, room, less);
      max_entries = ground (arith, room, less);
      grows = ground (arith, room, less);
    }

KeepsSettings-is_duplicate :
    {D : Type 0} (show : D → String) (event : MarketEvent D) (now : ℕ) (d : PolymarketDeduplicator)
    → length d.cache < d.max_entries
    → KeepsSettings d (is_duplicate show event now d).1
unfolding is_duplicate
KeepsSettings-is_duplicate show event now d room =
    let same : KeepsSettings d d = record {
      enabled = refl;
      ttl = refl;
      max_entries = refl;
      grows = omega arith;
    } in
    elim (Option-cases (make_key show event)) [
      | inl e ↦ ground (arith, e, same)
      | inr (key, e) ↦ ground (arith, e, same, KeepsSettings-remember key now d room)
    ]

HasEntry-remember :
    (key other : String) (at now : ℕ) (d : PolymarketDeduplicator)
    → length d.cache < d.max_entries
    → at ≤ now
    → HasEntry key at d
    → HasEntry key at (remember other now d)
unfolding remember
HasEntry-remember key other at now d room after h =
    let less = length-insert-le other now d.cache in
    elim (Bool-cases (other == key)) [
      | inl e ↦ record {
        time = now;
        found = ground (arith, room, less, e, lookup-insert other key now d.cache);
        later = after;
      }
      | inr e ↦ record {
        time = h.time;
        found = ground (arith, room, less, e, lookup-insert other key now d.cache, h.found);
        later = h.later;
      }
    ]

HasEntry-is_duplicate :
    {D : Type 0} (show : D → String) (event : MarketEvent D) (key : String) (at now : ℕ)
    (d : PolymarketDeduplicator)
    → length d.cache < d.max_entries
    → at ≤ now
    → HasEntry key at d
    → HasEntry key at (is_duplicate show event now d).1
unfolding is_duplicate
HasEntry-is_duplicate show event key at now d room after h =
    elim (Option-cases (make_key show event)) [
      | inl e ↦ ground (arith, e, h)
      | inr (other, e) ↦ ground (arith, e, h, HasEntry-remember key other at now d room after h)
    ]

stored_when_passed :
    {D : Type 0} (show : D → String) (t : TokenId) (b : Book D) (at : ℕ)
    (d : PolymarketDeduplicator)
    → d.enabled ≡ true
    → length d.cache < d.max_entries
    → (is_duplicate show (book_snapshot t b) at d).0 ≡ false
    → lookup (book_key show "snap:" t b) (is_duplicate show (book_snapshot t b) at d).1.cache
      ≡ some at
unfolding is_duplicate make_key
stored_when_passed show t b at d on room passed =
    ground (arith, on, passed, lookup-remember (book_key show "snap:" t b) at d room)

-- The filter after some messages, each with the moment of its coming.
unfoldable pub after_messages :
    {D : Type 0}
    → (D → String)
    → List (MarketEvent D × ℕ)
    → PolymarketDeduplicator
    → PolymarketDeduplicator
after_messages show [] d = d
after_messages show ((event, now) ∷ rest) d =
    after_messages show rest (is_duplicate show event now d).1

-- The messages come at a moment or later.
abbrev pub ComeAfter : {D : Type 0} → ℕ → List (MarketEvent D × ℕ) → Type 0
ComeAfter at = All (λ e. at ≤ e.1)

is_duplicate-after_messages :
    {D : Type 0} (show : D → String) (event : MarketEvent D) (key : String) (at now : ℕ)
    → make_key show event ≡ some key
    → (between : List (MarketEvent D × ℕ)) → ComeAfter at between
    → (d : PolymarketDeduplicator) → d.enabled ≡ true
    → length d.cache + length between ≤ d.max_entries
    → now - at < d.ttl
    → HasEntry key at d
    → (is_duplicate show event now (after_messages show between d)).0 ≡ true
unfolding is_duplicate is_fresh after_messages
is_duplicate-after_messages show event key at now made [] c d on room within h =
    ground (arith, made, on, within, h.found, h.later)
is_duplicate-after_messages show event key at now made ((other, time) ∷ rest) c d on room within h =
    let here : length d.cache < d.max_entries = omega (arith, room) in
    let kept = KeepsSettings-is_duplicate show other time d here in
    is_duplicate-after_messages show event key at now made rest c.1
      (is_duplicate show other time d).1 (kept.enabled ∙ on)
      (omega (arith, room, kept.grows, kept.max_entries)) (omega (arith, within, kept.ttl))
      (HasEntry-is_duplicate show other key at time d here c.0 h)

-- A snapshot that was let through hides every later snapshot of its token with the same best levels
-- and the same number of levels on each side, whatever its other levels are and whatever messages come
-- between them, if the time to live has not passed since the first came, the moments do not run
-- backwards, and the cache has room for the first and for all that come between.
pub is_duplicate-shallow :
    {D : Type 0} (show : D → String) (t : TokenId) (b later : Book D) (at now : ℕ)
    (d : PolymarketDeduplicator) (between : List (MarketEvent D × ℕ))
    → d.enabled ≡ true
    → length d.cache + length between < d.max_entries
    → (is_duplicate show (book_snapshot t b) at d).0 ≡ false
    → ComeAfter at between
    → best_bid later ≡ best_bid b
    → best_ask later ≡ best_ask b
    → length later.bids ≡ length b.bids
    → length later.asks ≡ length b.asks
    → now - at < d.ttl
    → (is_duplicate show
        (book_snapshot t later)
        now
        (after_messages show between (is_duplicate show (book_snapshot t b) at d).1)).0
      ≡ true
unfolding make_key
is_duplicate-shallow show t b later at now d between on room passed c bid ask bids asks within =
    let key = book_key show "snap:" t b in
    let same : book_key show "snap:" t later ≡ key =
      book_key_shallow show "snap:" t b later bid ask bids asks in
    let here : length d.cache < d.max_entries = omega (arith, room) in
    let kept = KeepsSettings-is_duplicate show (book_snapshot t b) at d here in
    is_duplicate-after_messages show (book_snapshot t later) key at now (ap some same) between c
      (is_duplicate show (book_snapshot t b) at d).1 (kept.enabled ∙ on)
      (omega (arith, room, kept.grows, kept.max_entries)) (omega (arith, within, kept.ttl))
      (record {
        time = at;
        found = stored_when_passed show t b at d on here passed;
        later = omega arith;
      })
