-- ===== src/Solver/Sizes.antt =====
-- The number of prices in a step of src/application/solver/frank_wolfe.rs.
use edgelord.Common.{
  suc, ◌≤◌, ◌≡◌, refl, ap, List, [], ◌∷◌, some, Option-cases, inl, inr, length, arith,
}
use edgelord.Money.{Decimal}
use edgelord.Solver.Bregman.{Float, bregman_gradient}
use edgelord.Solver.FrankWolfe.{blend, move_towards}

module _ {D : Type 0} ⦃d : Decimal D⦄ where
  pub length-move_towards :
      (g : D) (ms ss : List D) {mu : List D}
      → move_towards g ms ss ≡ some mu
      → length mu ≡ length ms
  unfolding move_towards
  length-move_towards g [] ss h = ground (arith, h)
  length-move_towards g (m ∷ ms) [] h = cc
  length-move_towards g (m ∷ ms) (s ∷ ss) h = elim (Option-cases (move_towards g ms ss)) [
    | inl e ↦ ground (arith, e, h)
    | inr (rest, e) ↦ ground (arith, e, h, length-move_towards g ms ss e)
  ]

  pub move_towards_total :
      (g : D) (ms ss : List D)
      → length ms ≤ length ss
      → (mu : List D) × (move_towards g ms ss ≡ some mu)
  unfolding move_towards
  move_towards_total g [] ss h = ([], refl)
  move_towards_total g (m ∷ ms) [] h = absurd (omega arith)
  move_towards_total g (m ∷ ms) (s ∷ ss) h =
      let (mu, e) = move_towards_total g ms ss (omega arith) in
      (blend g m s ∷ mu, rw (e, move_towards))

pub length-bregman_gradient :
    {D F : Type 0} ⦃d : Decimal D⦄ (x : Float D F) (mu theta : List D)
    → length mu ≤ length theta
    → length (bregman_gradient x mu theta) ≡ length mu
unfolding bregman_gradient
length-bregman_gradient x [] ts h = refl
length-bregman_gradient x (m ∷ ms) [] h = absurd (omega arith)
length-bregman_gradient x (m ∷ ms) (t ∷ ts) h =
    ap suc (length-bregman_gradient x ms ts (omega arith))
