-- ===== src/Solver/Bregman.antt =====
-- src/application/solver/bregman.rs. The floating point numbers are a type with their operations.
use edgelord.Common.{
  Bool, not, ◌&&◌, ◌||◌, List, [], ◌∷◌, map, Option, none, some, length, is_empty, nat_beq,
  if◌then◌else◌,
}
use edgelord.Money.{Decimal, ◌⊕◌, ◌<?◌, max}

pub record Float (D F : Type 0) : Type 0 where
  pub to_f64 : D → Option F
  pub try_from : F → Option D
  pub zero_f : F
  pub one_f : F
  pub add_f : F → F → F
  pub sub_f : F → F → F
  pub mul_f : F → F → F
  pub div_f : F → F → F
  pub ln : F → F
  pub exp : F → F
  pub lt_f : F → F → Bool

-- `Option::unwrap_or`.
abbrev pub or_else : {A : Type 0} → A → Option A → A
or_else a none = a
or_else a (some b) = b

module _ {D F : Type 0} ⦃d : Decimal D⦄ (x : Float D F) where
  -- 1e-10.
  abbrev pub epsilon : D
  epsilon = d.scaled 1 10

  abbrev pub as_decimal : F → D
  as_decimal f = or_else d.nought (x.try_from f)

  abbrev pub as_f64 : F → D → F
  as_f64 default a = or_else default (x.to_f64 a)

  -- The term of one pair of prices, nought where the source adds nothing.
  unfoldable pub divergence_term : D → D → Option D
  divergence_term m t =
      let m_f64 = as_f64 x.zero_f m in
      let t_f64 = as_f64 x.one_f t in
      if (epsilon <? m) && (epsilon <? t) && x.lt_f x.zero_f m_f64 && x.lt_f x.zero_f t_f64
      then some (as_decimal (x.mul_f m_f64 (x.sub_f (x.ln m_f64) (x.ln t_f64))))
      else none

  -- The loop over `zip`.
  unfoldable pub divergence_from : D → List D → List D → D
  divergence_from acc [] ts = acc
  divergence_from acc (m ∷ ms) [] = acc
  divergence_from acc (m ∷ ms) (t ∷ ts) =
      divergence_from (elim (divergence_term m t) [ none ↦ acc | some term ↦ acc ⊕ term ]) ms ts

  unfoldable pub bregman_divergence : List D → List D → D
  bregman_divergence mu theta =
      if not (nat_beq (length mu) (length theta)) || is_empty mu
      then d.nought
      else divergence_from d.nought mu theta

  unfoldable pub gradient_term : D → D → D
  gradient_term m t =
      let m_f64 = as_f64 x.one_f (max m epsilon) in
      let t_f64 = as_f64 x.one_f (max t epsilon) in
      as_decimal (x.add_f (x.sub_f (x.ln m_f64) (x.ln t_f64)) x.one_f)

  unfoldable pub bregman_gradient : List D → List D → List D
  bregman_gradient [] ts = []
  bregman_gradient (m ∷ ms) [] = []
  bregman_gradient (m ∷ ms) (t ∷ ts) = gradient_term m t ∷ bregman_gradient ms ts

  -- `Iterator::sum` of `f64`.
  abbrev pub sum_f : F → List F → F
  sum_f acc [] = acc
  sum_f acc (f ∷ fs) = sum_f (x.add_f acc f) fs

  abbrev exps : List D → F → List F
  exps q b_f64 = map (λ qi. x.exp (x.div_f (as_f64 x.zero_f qi) b_f64)) q

  abbrev is_zero : D → Bool
  is_zero b = not (b <? d.nought) && not (d.nought <? b)

  unfoldable pub lmsr_cost : List D → D → D
  lmsr_cost q b =
      let b_f64 = as_f64 x.one_f b in
      if is_empty q || is_zero b
      then d.nought
      else as_decimal (x.mul_f b_f64 (x.ln (sum_f x.zero_f (exps q b_f64))))

  unfoldable pub lmsr_prices : List D → D → List D
  lmsr_prices q b =
      let es = exps q (as_f64 x.one_f b) in
      if is_empty q || is_zero b
      then []
      else map (λ e. as_decimal (x.div_f e (sum_f x.zero_f es))) es
