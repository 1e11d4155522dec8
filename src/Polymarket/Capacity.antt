-- ===== src/Polymarket/Capacity.antt =====
-- How many entries the cache of src/adapter/outbound/polymarket/dedup.rs keeps.
use edgelord.Common.{
  ℕ, zero, suc, ◌-◌, ◌≤◌, ◌≡◌, ◌∙◌, sym, ap, refl, List, [], ◌∷◌, String, length, insert, remove,
  contains, ==_iff, ==_refl, string_eq, ltb, if◌then◌else◌, filter, arith, inl, inr, Option-cases,
}
use edgelord.Exchange.Event.{MarketEvent}
use edgelord.Polymarket.Dedup.{
  PolymarketDeduplicator, make_key, insert_by_time, sort_by_time, remove_first, gc, remember,
  is_duplicate,
}

-- The number of entries whose key is not among some keys.
survives : List String → List (String × ℕ) → ℕ
survives ks [] = 0
survives ks (e ∷ es) = let rest = survives ks es in if contains e.0 ks then rest else suc rest

-- The keys of the first entries, before others.
taken : ℕ → List (String × ℕ) → List String
taken zero es = []
taken (suc n) [] = []
taken (suc n) (e ∷ es) = e.0 ∷ taken n es

survives-nil : (es : List (String × ℕ)) → survives [] es ≡ length es
unfolding survives contains
survives-nil [] = refl
survives-nil (e ∷ es) = ap suc (survives-nil es)

survives-remove :
    (k : String) (ks : List String) (es : List (String × ℕ))
    → survives ks (remove k es) ≡ survives (k ∷ ks) es
unfolding survives remove contains
survives-remove k ks [] = refl
survives-remove k ks (e ∷ es) =
    let rest = survives-remove k ks es in ground (arith, rest, ==_iff e.0 k, ==_iff k e.0)

survives-le :
    (k : String) (ks : List String) (es : List (String × ℕ)) → survives (k ∷ ks) es ≤ survives ks es
unfolding survives contains
survives-le k ks [] = omega arith
survives-le k ks (e ∷ es) = let rest = survives-le k ks es in ground (arith, rest)

survives-insert_by_time :
    (ks : List String) (e : String × ℕ) (es : List (String × ℕ))
    → survives ks (insert_by_time e es) ≡ survives ks (e ∷ es)
unfolding survives insert_by_time
survives-insert_by_time ks e [] = refl
survives-insert_by_time ks e (f ∷ fs) =
    let rest = survives-insert_by_time ks e fs in ground (arith, rest)

survives-sort_by_time :
    (ks : List String) (es : List (String × ℕ)) → survives ks (sort_by_time es) ≡ survives ks es
unfolding survives sort_by_time
survives-sort_by_time ks [] = refl
survives-sort_by_time ks (e ∷ es) =
    let rest = survives-sort_by_time ks es in
    ground (arith, rest, survives-insert_by_time ks e (sort_by_time es))

length-remove_first :
    (n : ℕ) (es cache : List (String × ℕ))
    → length (remove_first n es cache) ≡ survives (taken n es) cache
unfolding remove_first taken
length-remove_first zero es cache = sym (survives-nil cache)
length-remove_first (suc n) [] cache = sym (survives-nil cache)
length-remove_first (suc n) (e ∷ es) cache =
    length-remove_first n es (remove e.0 cache) ∙ survives-remove e.0 (taken n es) cache

survives-taken : (n : ℕ) (es : List (String × ℕ)) → survives (taken n es) es ≤ length es - n
unfolding survives taken contains
survives-taken zero es = omega (arith, survives-nil es)
survives-taken (suc n) [] = omega arith
survives-taken (suc n) (e ∷ es) =
    let rest = survives-taken n es in
    let less = survives-le e.0 (taken n es) es in ground (arith, rest, less, ==_refl e.0)

length-gc : (now : ℕ) (d : PolymarketDeduplicator) → length (gc now d).cache ≤ d.max_entries
unfolding gc
length-gc now d =
    let kept = filter (λ e. ltb (now - e.1) d.ttl) d.cache in
    let n = length kept - d.max_entries in
    let sorted = sort_by_time kept in
    let size = survives-sort_by_time [] kept in
    ground (
      arith,
      length-remove_first n sorted kept,
      survives-sort_by_time (taken n sorted) kept,
      survives-taken n sorted,
      survives-nil sorted,
      survives-nil kept,
      size,
    )

length-remember :
    (key : String) (now : ℕ) (d : PolymarketDeduplicator)
    → length (remember key now d).cache ≤ d.max_entries
unfolding remember
length-remember key now d =
    ground (arith, length-gc now (record d { cache = insert key now d.cache }))

-- The cache keeps to its limit, whatever the messages.
pub is_duplicate-bound :
    {D : Type 0} (show : D → String) (event : MarketEvent D) (now : ℕ) (d : PolymarketDeduplicator)
    → length d.cache ≤ d.max_entries
    → length (is_duplicate show event now d).1.cache ≤ d.max_entries
unfolding is_duplicate
is_duplicate-bound show event now d h = elim (Option-cases (make_key show event)) [
  | inl none_here ↦ ground (arith, h, none_here)
  | inr (key, found) ↦ ground (arith, h, found, length-remember key now d)
]
