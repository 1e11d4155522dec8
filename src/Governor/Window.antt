-- ===== src/Governor/Window.antt =====
-- The window of samples of src/infrastructure/governor/latency.rs.
use mathlib.Core.List.{append_assoc}
use edgelord.Common.{ℕ, ◌≤◌, ◌≡◌, ◌∙◌, ap, refl, List, [], ◌∷◌, ◌++◌, length, length-append, arith}
use edgelord.Governor.Latency.{LatencyGovernor, trim, record_latency}

module _ {ℓ} {A : Type ℓ} where
  pub length-trim-le : (limit : ℕ) (xs : List A) → length (trim limit xs) ≤ limit
  unfolding trim
  length-trim-le limit [] = omega arith
  length-trim-le limit (x ∷ xs) = let rest = length-trim-le limit xs in ground (arith, rest)

  -- Trimming early changes nothing: the window is the end of all that came.
  trim-append :
      (limit : ℕ) (xs ys : List A) → trim limit (trim limit xs ++ ys) ≡ trim limit (xs ++ ys)
  unfolding trim
  trim-append limit [] ys = refl
  trim-append limit (x ∷ xs) ys =
      let rest = trim-append limit xs ys in ground (arith, rest, length-append xs ys)

module _ {F : Type 0} where
  unfoldable pub record_each : List ℕ → LatencyGovernor F → LatencyGovernor F
  record_each [] g = g
  record_each (l ∷ ls) g = record_each ls (record_latency l g)

  -- After any measurements the governor holds the last ones, as many as its limit allows, in order.
  pub samples-record_each :
      (l : ℕ) (ls : List ℕ) (g : LatencyGovernor F)
      → (record_each (l ∷ ls) g).samples ≡ trim g.max_samples (g.samples ++ (l ∷ ls))
  unfolding record_each record_latency
  samples-record_each l [] g = refl
  samples-record_each l (k ∷ ls) g =
      samples-record_each k ls (record_latency l g)
      ∙ trim-append g.max_samples (g.samples ++ (l ∷ [])) (k ∷ ls)
      ∙ ap (trim g.max_samples) (append_assoc g.samples (l ∷ []) (k ∷ ls))
