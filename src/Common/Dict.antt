-- ===== src/Common/Dict.antt =====
-- Hash maps as association lists, and hash sets as lists, over keys with an equality.
use mathlib.Core.Path.{◌≡◌, refl}
use mathlib.Core.Bool.{Bool, true, false, ◌&&◌, ◌||◌, not}
use mathlib.Core.Option.{Option, none, some}
use mathlib.Core.List.{List, [], ◌∷◌, map}
use native.Mathlib.Omega.{arith}
use edgelord.Common.Tests.{Eq, ◌==◌, ==_iff, if◌then◌else◌}

module _ {ℓ κ} {K : Type ℓ} {V : Type κ} ⦃e : Eq K⦄ where
  -- `HashMap::get`.
  unfoldable pub lookup : K → List (K × V) → Option V
  lookup key [] = none
  lookup key ((first, value) ∷ rest) = if first == key then some value else lookup key rest

  -- `HashMap::insert`, which replaces the value of a key that is there.
  unfoldable pub insert : K → V → List (K × V) → List (K × V)
  insert key value [] = (key, value) ∷ []
  insert key value ((first, old) ∷ rest) =
      if first == key then (key, value) ∷ rest else (first, old) ∷ insert key value rest

  -- `HashMap::remove`.
  unfoldable pub remove : K → List (K × V) → List (K × V)
  remove key [] = []
  remove key ((first, old) ∷ rest) =
      let left = remove key rest in if first == key then left else (first, old) ∷ left

  pub lookup-insert :
      (new at : K) (value : V) (entries : List (K × V))
      → lookup at (insert new value entries) ≡ (if new == at then some value else lookup at entries)
  unfolding insert lookup
  lookup-insert new at value [] = refl
  lookup-insert new at value ((first, old) ∷ rest) =
      let later = lookup-insert new at value rest in
      ground (arith, later, ==_iff first at, ==_iff first new, ==_iff new at)

  pub lookup-remove :
      (gone at : K) (entries : List (K × V))
      → lookup at (remove gone entries) ≡ (if gone == at then none else lookup at entries)
  unfolding remove lookup
  lookup-remove gone at [] = ground arith
  lookup-remove gone at ((first, old) ∷ rest) =
      let later = lookup-remove gone at rest in
      ground (arith, later, ==_iff first at, ==_iff first gone, ==_iff gone at)

abbrev pub keys {ℓ κ} : {K : Type ℓ} {V : Type κ} → List (K × V) → List K
keys = map (λ e. e.0)

abbrev pub values {ℓ κ} : {K : Type ℓ} {V : Type κ} → List (K × V) → List V
values = map (λ e. e.1)

module _ {ℓ} {K : Type ℓ} ⦃e : Eq K⦄ where
  unfoldable pub contains : K → List K → Bool
  contains k [] = false
  contains k (x ∷ xs) = x == k || contains k xs

  -- `HashSet::insert`: the set, and whether the element is new.
  unfoldable pub set_insert : K → List K → List K × Bool
  unfolding contains
  set_insert k xs = if contains k xs then (xs, false) else (k ∷ xs, true)

  -- `HashSet::remove`.
  unfoldable pub set_remove : K → List K → List K
  set_remove k [] = []
  set_remove k (x ∷ xs) = let rest = set_remove k xs in if x == k then rest else x ∷ rest

  pub contains-set_insert :
      (k j : K) (xs : List K) → contains j (set_insert k xs).0 ≡ (k == j || contains j xs)
  unfolding contains set_insert
  contains-set_insert k j xs = ground (arith, ==_iff k j)

  pub contains-set_remove :
      (k j : K) (xs : List K) → contains j (set_remove k xs) ≡ (not (k == j) && contains j xs)
  unfolding contains set_remove
  contains-set_remove k j [] = ground arith
  contains-set_remove k j (x ∷ xs) =
      ground (arith, ==_iff k j, ==_iff x k, ==_iff x j, contains-set_remove k j xs)

  pub set_remove_absent : (k : K) (xs : List K) → contains k xs ≡ false → set_remove k xs ≡ xs
  unfolding contains set_remove
  set_remove_absent k [] h = refl
  set_remove_absent k (x ∷ xs) h = ground (arith, set_remove_absent k xs)

  -- Taking out a new element gives the set back.
  pub set_remove-set_insert :
      (k : K) (xs : List K) → contains k xs ≡ false → set_remove k (set_insert k xs).0 ≡ xs
  unfolding set_insert set_remove contains
  set_remove-set_insert k xs h = ground (arith, ==_iff k k, set_remove_absent k xs)
