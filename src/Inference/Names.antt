-- ===== src/Inference/Names.antt =====
-- The names by which the prompt calls the markets (src/adapter/outbound/inference/inferrer.rs).
use Prim.Native.String.{◌++◌ as append}
use Prim.Native.String.append
use edgelord.Common.{
  ℕ, ◌+◌, ◌*◌, ◌-◌, List, [], ◌∷◌, ◌++◌, String, Option, none, some, get_elem?, string_eq,
}
use edgelord.Domain.Id.{MarketId}
use edgelord.Telegram.Text.{Text}

-- The number that digits stand for.
abbrev read : ℕ → Text → ℕ
read acc [] = acc
read acc (c ∷ cs) = read (10 * acc + (c - 48)) cs

-- The letter before the number.
abbrev without_first : Text → Text
without_first [] = []
without_first (c ∷ cs) = cs

-- The markets at these places, if all are there.
unfoldable pub at_each : List MarketId → List ℕ → Option (List MarketId)
at_each ids [] = some []
at_each ids (k ∷ ks) = elim (get_elem? ids k) [
  | none ↦ none
  | some id ↦ elim (at_each ids ks) [ none ↦ none | some rest ↦ some (id ∷ rest) ]
]
