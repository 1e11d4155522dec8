-- ===== src/Governor/Metrics.antt =====
-- The percentiles of src/infrastructure/governor/latency.rs.
use edgelord.Common.{
  ℕ, zero, suc, ◌-◌, ◌≤◌, ◌<◌, ◌≡◌, ◌∙◌, sym, ap, subst, refl, true, ◌||◌, List, [], ◌∷◌, ◌==◌,
  nat_eq, some, length, get_elem?, contains, leb, All, if◌then◌else◌, inl, inr, Bool-cases, arith,
}
use edgelord.Governor.Latency.{
  LatencyGovernor, Ranks, insert_sorted, sort, percentile, latency_metrics,
}

abbrev IsSorted : List ℕ → Type 0
IsSorted [] = Unit
IsSorted (a ∷ rest) = All (λ b. a ≤ b) rest × IsSorted rest

All-weaken : (a b : ℕ) (bs : List ℕ) → a ≤ b → All (λ c. b ≤ c) bs → All (λ c. a ≤ c) bs
All-weaken a b [] h all = tt
All-weaken a b (c ∷ cs) h (first, rest) = (omega arith, All-weaken a b cs h rest)

All-insert_sorted :
    (a x : ℕ) (bs : List ℕ) → a ≤ x → All (λ c. a ≤ c) bs → All (λ c. a ≤ c) (insert_sorted x bs)
unfolding insert_sorted
All-insert_sorted a x [] h all = (h, tt)
All-insert_sorted a x (b ∷ bs) h (first, rest) =
    let later = All-insert_sorted a x bs h rest in ground (arith, later)

insert_sorted-IsSorted : (a : ℕ) (bs : List ℕ) → IsSorted bs → IsSorted (insert_sorted a bs)
unfolding insert_sorted
insert_sorted-IsSorted a [] s = (tt, tt)
insert_sorted-IsSorted a (b ∷ bs) (first, rest) =
    let later = insert_sorted-IsSorted a bs rest in
    elim (Bool-cases (leb a b)) [
      | inl under ↦
          let h : a ≤ b = ground (arith, under) in
          ground (arith, under, All-weaken a b bs h first, first, rest)
      | inr over ↦
          let h : b ≤ a = ground (arith, over) in
          ground (arith, over, later, All-insert_sorted b a bs h first)
    ]

sort-IsSorted : (samples : List ℕ) → IsSorted (sort samples)
unfolding sort
sort-IsSorted [] = tt
sort-IsSorted (a ∷ rest) = insert_sorted-IsSorted a (sort rest) (sort-IsSorted rest)

contains-insert_sorted :
    (v a : ℕ) (bs : List ℕ) → contains v (insert_sorted a bs) ≡ (a == v || contains v bs)
unfolding insert_sorted contains
contains-insert_sorted v a [] = refl
contains-insert_sorted v a (b ∷ bs) =
    let later = contains-insert_sorted v a bs in ground (arith, later)

contains-sort : (v : ℕ) (samples : List ℕ) → contains v (sort samples) ≡ contains v samples
unfolding sort contains
contains-sort v [] = refl
contains-sort v (a ∷ rest) =
    ground (arith, contains-insert_sorted v a (sort rest), contains-sort v rest)

length-insert_sorted : (a : ℕ) (bs : List ℕ) → length (insert_sorted a bs) ≡ suc (length bs)
unfolding insert_sorted
length-insert_sorted a [] = refl
length-insert_sorted a (b ∷ bs) = let later = length-insert_sorted a bs in ground (arith, later)

get_elem?-some : (xs : List ℕ) (i : ℕ) → i < length xs → (v : ℕ) × (get_elem? xs i ≡ some v)
get_elem?-some [] i h = absurd (omega arith)
get_elem?-some (x ∷ xs) zero h = (x, refl)
get_elem?-some (x ∷ xs) (suc i) h = get_elem?-some xs i (omega arith)

contains_of_get_elem? :
    (xs : List ℕ) (i : ℕ) {v : ℕ} → get_elem? xs i ≡ some v → contains v xs ≡ true
unfolding contains
contains_of_get_elem? [] i h = cc
contains_of_get_elem? (x ∷ xs) zero {v = v} h = ground (arith, h)
contains_of_get_elem? (x ∷ xs) (suc i) {v = v} h =
    let later = contains_of_get_elem? xs i h in ground (arith, later)

least_first :
    (a : ℕ) (xs : List ℕ) (j : ℕ) {b : ℕ} → All (λ c. a ≤ c) xs → get_elem? xs j ≡ some b → a ≤ b
least_first a [] j all h = absurd (ground (arith, h))
least_first a (x ∷ xs) zero (first, rest) h = ground (arith, h, first)
least_first a (x ∷ xs) (suc j) (first, rest) h = least_first a xs j rest h

get_elem?-monotone :
    (xs : List ℕ) (i j : ℕ) {a b : ℕ}
    → IsSorted xs
    → i ≤ j
    → get_elem? xs i ≡ some a
    → get_elem? xs j ≡ some b
    → a ≤ b
get_elem?-monotone [] i j s h p q = absurd (ground (arith, p))
get_elem?-monotone (x ∷ xs) zero zero s h p q = ground (arith, p, q)
get_elem?-monotone (x ∷ xs) zero (suc j) (first, rest) h p q =
    let later = least_first x xs j first q in ground (arith, p, later)
get_elem?-monotone (x ∷ xs) (suc i) zero s h p q = absurd (omega arith)
get_elem?-monotone (x ∷ xs) (suc i) (suc j) (first, rest) h p q =
    get_elem?-monotone xs i j rest (omega arith) p q

-- The index that `percentile` reads.
abbrev clipped : (ℕ → ℕ) → ℕ → ℕ
clipped rank n = if leb (rank n) (n - 1) then rank n else n - 1

percentile_lem :
    (rank : ℕ → ℕ) (xs : List ℕ)
    → 0 < length xs
    → get_elem? xs (clipped rank (length xs)) ≡ some (percentile rank xs)
unfolding percentile
percentile_lem rank [] h = absurd (omega arith)
percentile_lem rank (x ∷ xs) h =
    let (v, e) = get_elem?-some (x ∷ xs) (clipped rank (length (x ∷ xs))) (ground arith) in
    ground (arith, e)

length-sort : (samples : List ℕ) → length (sort samples) ≡ length samples
unfolding sort
length-sort [] = refl
length-sort (a ∷ rest) = length-insert_sorted a (sort rest) ∙ ap suc (length-sort rest)

percentile-sort-contains :
    (rank : ℕ → ℕ) (samples : List ℕ)
    → 0 < length samples
    → contains (percentile rank (sort samples)) samples ≡ true
percentile-sort-contains rank samples h =
    let found = percentile_lem rank (sort samples) (omega (arith, length-sort samples)) in
    sym (contains-sort (percentile rank (sort samples)) samples)
    ∙ contains_of_get_elem? (sort samples) _ found

percentile-monotone :
    (low high : ℕ → ℕ) (samples : List ℕ)
    → low (length samples) ≤ high (length samples)
    → 0 < length samples
    → percentile low (sort samples) ≤ percentile high (sort samples)
percentile-monotone low high samples h p =
    let n = length-sort samples in
    let some_there : 0 < length (sort samples) = omega (arith, n) in
    let size = length (sort samples) in
    let order : low size ≤ high size = subst (λ m. low m ≤ high m) (sym n) h in
    get_elem?-monotone (sort samples) (clipped low size) (clipped high size) (sort-IsSorted samples)
      (ground (arith, order)) (percentile_lem low (sort samples) some_there)
      (percentile_lem high (sort samples) some_there)

module _ {F : Type 0} where
  -- With a sample, each of the three percentiles is one of the samples, and they are in order when
  -- their ranks are.
  pub latency_metrics_samples :
      (ranks : Ranks) (g : LatencyGovernor F)
      → 0 < length g.samples
      → ranks.at_50 (length g.samples) ≤ ranks.at_95 (length g.samples)
      → ranks.at_95 (length g.samples) ≤ ranks.at_99 (length g.samples)
      → (contains (latency_metrics ranks g).p50 g.samples ≡ true)
        × (contains (latency_metrics ranks g).p95 g.samples ≡ true)
        × (contains (latency_metrics ranks g).p99 g.samples ≡ true)
        × ((latency_metrics ranks g).p50 ≤ (latency_metrics ranks g).p95)
        × ((latency_metrics ranks g).p95 ≤ (latency_metrics ranks g).p99)
  unfolding latency_metrics
  latency_metrics_samples ranks g p h k =
      let within = percentile-sort-contains in
      ground (
        arith,
        within ranks.at_50 g.samples p,
        within ranks.at_95 g.samples p,
        within ranks.at_99 g.samples p,
        percentile-monotone ranks.at_50 ranks.at_95 g.samples h p,
        percentile-monotone ranks.at_95 ranks.at_99 g.samples k p,
      )
