-- ===== src/Exchange/Pool/Chunks.antt =====
-- `slice::chunks` and the last chunk, as src/infrastructure/exchange/pool.rs uses them.
use native.Mathlib.Numerals.{unary_clauses}
use mathlib.Core.List.{append-nil, append_assoc}
use edgelord.Common.{
  ℕ, zero, suc, ◌+◌, ◌-◌, ◌*◌, ◌≤◌, ◌<◌, ◌≡◌, ◌∙◌, sym, ap, refl, List, [], ◌∷◌, ◌++◌, length,
  length-append, All, arith,
}
use edgelord.Exchange.Pool.{take, drop, chunks_from, concat, total, extend_last}

module _ {ℓ} {A : Type ℓ} where
  pub take-append-drop : (n : ℕ) (xs : List A) → take n xs ++ drop n xs ≡ xs
  unfolding take drop
  take-append-drop zero xs = refl
  take-append-drop (suc n) [] = refl
  take-append-drop (suc n) (x ∷ xs) = ap (◌∷◌ x) (take-append-drop n xs)

  pub drop-take :
      (n more : ℕ) (xs : List A) → drop (length (take n xs) + more) xs ≡ drop more (drop n xs)
  unfolding take drop
  drop-take zero more xs = ap (λ n. drop n xs) (omega arith)
  drop-take (suc n) zero [] = refl
  drop-take (suc n) (suc more) [] = simp unary_clauses refl
  drop-take (suc n) more (x ∷ xs) =
      let moved : suc (length (take n xs)) + more ≡ suc (length (take n xs) + more) = omega arith in
      ap (λ m. drop m (x ∷ xs)) moved ∙ drop-take n more xs

  pub length-take-le : (n : ℕ) (xs : List A) → length (take n xs) ≤ n
  unfolding take
  length-take-le (suc n) (x ∷ xs) = omega (arith, length-take-le n xs)
  length-take-le _ _ = omega arith

  pub drop_all : (n : ℕ) (xs : List A) → length xs ≤ n → drop n xs ≡ []
  unfolding drop
  drop_all zero [] h = refl
  drop_all zero (x ∷ xs) h = absurd (omega arith)
  drop_all (suc n) [] h = refl
  drop_all (suc n) (x ∷ xs) h = drop_all n xs (omega arith)

  pub length-drop : (n : ℕ) (xs : List A) → length (drop n xs) ≡ length xs - n
  unfolding drop
  length-drop zero xs = omega arith
  length-drop (suc n) [] = omega arith
  length-drop (suc n) (x ∷ xs) = omega (arith, length-drop n xs)

  pub concat-chunks :
      (k fuel size : ℕ) (xs : List A)
      → concat (take k (chunks_from fuel size xs))
          ++ drop (total (take k (chunks_from fuel size xs))) xs
        ≡ xs
  unfolding concat take chunks_from drop
  concat-chunks zero fuel size xs = refl
  concat-chunks (suc k) zero size xs = refl
  concat-chunks (suc k) (suc fuel) size [] = refl
  concat-chunks (suc k) (suc fuel) size (x ∷ xs) =
      let rest = drop size (x ∷ xs) in
      let parts = take k (chunks_from fuel size rest) in
      append_assoc (take size (x ∷ xs)) (concat parts) _
      ∙ ap (λ ys. take size (x ∷ xs) ++ (concat parts ++ ys))
          (drop-take size (total parts) (x ∷ xs))
      ∙ ap (◌++◌ (take size (x ∷ xs))) (concat-chunks k fuel size rest)
      ∙ take-append-drop size (x ∷ xs)

  pub concat-extend_last :
      (more xs : List A) (xss : List (List A))
      → concat (extend_last more (xs ∷ xss)) ≡ concat (xs ∷ xss) ++ more
  unfolding concat extend_last
  concat-extend_last more xs [] =
      append_assoc xs more []
      ∙ ap (◌++◌ xs) (append-nil more)
      ∙ ap (λ ys. ys ++ more) (sym (append-nil xs))
  concat-extend_last more xs (ys ∷ yss) =
      ap (◌++◌ xs) (concat-extend_last more ys yss) ∙ sym (append_assoc xs (ys ++ concat yss) more)

  pub length-extend_last :
      (more : List A) (xss : List (List A)) → length (extend_last more xss) ≡ length xss
  unfolding extend_last
  length-extend_last more [] = refl
  length-extend_last more (xs ∷ []) = refl
  length-extend_last more (xs ∷ ys ∷ yss) = ap suc (length-extend_last more (ys ∷ yss))

  pub length-take_capped : (n : ℕ) (xs : List A) → length xs ≤ n → length (take n xs) ≡ length xs
  unfolding take
  length-take_capped zero [] h = refl
  length-take_capped zero (x ∷ xs) h = absurd (omega arith)
  length-take_capped (suc n) [] h = refl
  length-take_capped (suc n) (x ∷ xs) h = ap suc (length-take_capped n xs (omega arith))

  pub length-take_full : (n : ℕ) (xs : List A) → n ≤ length xs → length (take n xs) ≡ n
  unfolding take
  length-take_full zero xs h = refl
  length-take_full (suc n) [] h = absurd (omega arith)
  length-take_full (suc n) (x ∷ xs) h = ap suc (length-take_full n xs (omega arith))

  -- Enough chunks hold everything.
  pub total-chunks :
      (k fuel size : ℕ) (xs : List A)
      → length xs ≤ fuel
      → 0 < size
      → length xs ≤ k * size
      → total (take k (chunks_from fuel size xs)) ≡ length xs
  unfolding take chunks_from
  total-chunks zero fuel size xs f p h = omega arith
  total-chunks (suc k) zero size xs f p h = omega arith
  total-chunks (suc k) (suc fuel) size [] f p h = refl
  total-chunks (suc k) (suc fuel) size (x ∷ xs) f p h =
      let ys = x ∷ xs in
      let rest : length (drop size ys) ≤ k * size = omega (arith, length-drop size ys) in
      let less : length (drop size ys) ≤ fuel = omega (arith, length-drop size ys) in
      let later = total-chunks k fuel size (drop size ys) less p rest in
      let here = length-append (take size ys) (drop size ys) in
      omega (arith, later, here, ap length (take-append-drop size ys))

  pub chunks-capped :
      (k fuel size : ℕ) (xs : List A)
      → All (λ ts. length ts ≤ size) (take k (chunks_from fuel size xs))
  unfolding take chunks_from
  chunks-capped zero fuel size xs = tt
  chunks-capped (suc k) zero size xs = tt
  chunks-capped (suc k) (suc fuel) size [] = tt
  chunks-capped (suc k) (suc fuel) size (x ∷ xs) =
      (length-take-le size (x ∷ xs), chunks-capped k fuel size (drop size (x ∷ xs)))
