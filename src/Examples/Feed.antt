-- ===== src/Examples/Feed.antt =====
-- The filter of repeated messages.
use edgelord.Common.{◌≡◌, refl, true, false, [], ◌∷◌, String, lookup, arith, ℕ, List}
use edgelord.Common.Int.{ℤ}
use edgelord.Domain.Book.{Book}
use edgelord.Examples.Data.{level}
use edgelord.Exchange.Event.{MarketEvent, book_snapshot}
use edgelord.Polymarket.Dedup.{PolymarketDeduplicator, is_duplicate, is_fresh, make_key}
use edgelord.Polymarket.Eviction.{is_duplicate-shallow, after_messages}

abbrev show : ℤ → String
show d = "0.5"

-- Two books that differ at the second ask.
abbrev before : Book ℤ
before = record { token_id = "yes"; bids = []; asks = level 40 100 ∷ level 45 100 ∷ [] }

abbrev after : Book ℤ
after = record { token_id = "yes"; bids = []; asks = level 40 100 ∷ level 41 900 ∷ [] }

abbrev filter : PolymarketDeduplicator
filter = record { cache = []; ttl = 5; max_entries = 2; enabled = true }

first_passes : (is_duplicate show (book_snapshot "yes" before) 10 filter).0 ≡ false
unfolding is_duplicate make_key is_fresh lookup
first_passes = refl

-- The first book again comes between.
abbrev between : List (MarketEvent ℤ × ℕ)
between = (book_snapshot "yes" before, 11) ∷ []

is_duplicate-shallow_example :
    (is_duplicate show
      (book_snapshot "yes" after)
      12
      (after_messages show between (is_duplicate show (book_snapshot "yes" before) 10 filter).1)).0
    ≡ true
is_duplicate-shallow_example =
    is_duplicate-shallow show "yes" before after 10 12 filter between refl (omega arith)
      first_passes (omega arith, tt) refl refl refl refl (omega arith)
