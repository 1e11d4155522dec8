-- ===== src/Recorder/Totals.antt =====
-- The sum of a column over the rows of a table whose keys pass a test.
use edgelord.Common.{
  ℕ, ◌+◌, ◌≡◌, Bool, List, [], ◌∷◌, Eq, ==_iff, lookup, insert, if◌then◌else◌, arith,
}
use edgelord.Recorder.Defs.{row_or}

module _ {K V : Type 0} where
  unfoldable pub total : (K → Bool) → (V → ℕ) → List (K × V) → ℕ
  total p column [] = 0
  total p column ((k, v) ∷ rest) = (if p k then column v else 0) + total p column rest

module _ {K V : Type 0} ⦃keys : Eq K⦄ where
  -- A replaced row counts in place of the old one; a row that is not there counts for nothing.
  pub total-insert :
      (p : K → Bool) (column : V → ℕ) (default : V) (k : K) (v : V) (rows : List (K × V))
      → column default ≡ 0
      → total p column (insert k v rows)
          + (if p k then column (row_or default (lookup k rows)) else 0)
        ≡ total p column rows + (if p k then column v else 0)
  unfolding total insert lookup
  total-insert p column default k v [] h = ground arith
  total-insert p column default k v ((first, old) ∷ rest) h =
      ground (arith, ==_iff first k, total-insert p column default k v rest)
