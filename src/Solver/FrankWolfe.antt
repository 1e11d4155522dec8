-- ===== src/Solver/FrankWolfe.antt =====
-- src/application/solver/frank_wolfe.rs, projection.rs beside it, and the answer of a solver
-- (src/port/outbound/solver.rs). The solver of integer programs is an argument.
use edgelord.Common.{
  ℕ, zero, suc, ◌+◌, Bool, true, false, List, [], ◌∷◌, Option, none, some, Result, ok, err,
  is_empty, if◌then◌else◌,
}
use edgelord.Money.{Decimal, ◌⊕◌, ◌⊖◌, ◌⊗◌, ◌⊘◌, ◌<?◌, abs}
use edgelord.Detection.Detector.{IlpProblem, ProjectionResult}
use edgelord.Solver.Bregman.{Float, bregman_gradient, bregman_divergence}

pub data SolutionStatus : Type 0 where
  optimal infeasible unbounded error : SolutionStatus

pub record LpSolution (D : Type 0) : Type 0 where
  pub values : List D
  pub objective : D
  pub status : SolutionStatus

abbrev pub is_optimal : SolutionStatus → Bool
is_optimal optimal = true
is_optimal infeasible = false
is_optimal unbounded = false
is_optimal error = false

pub record FrankWolfeConfig (D : Type 0) : Type 0 where
  pub max_iterations : ℕ
  pub tolerance : D

pub record FrankWolfeResult (D : Type 0) : Type 0 where
  pub mu : List D
  pub gap : D
  pub iterations : ℕ
  pub converged : Bool

-- An error of the solver, or the panic of `s[i]` for a solution with too few values.
pub data Fault (E : Type 0) : Type 0 where
  failed : (error : E) → Fault E
  out_of_bounds : Fault E

-- The variables of the loop.
pub record Progress (D : Type 0) : Type 0 where
  pub mu : List D
  pub gap : D
  pub iterations : ℕ

module _ {D : Type 0} ⦃d : Decimal D⦄ where
  -- `Decimal::from` of a count, and `Decimal::TWO`.
  abbrev pub from_count : ℕ → D
  from_count n = d.scaled n 0

  -- The duality gap: the sum over both `zip`s.
  unfoldable pub gap_from : D → List D → List D → List D → D
  gap_from acc [] ms ss = acc
  gap_from acc (g ∷ gs) [] ss = acc
  gap_from acc (g ∷ gs) (m ∷ ms) [] = acc
  gap_from acc (g ∷ gs) (m ∷ ms) (s ∷ ss) = gap_from (acc ⊕ g ⊗ (m ⊖ s)) gs ms ss

  abbrev pub gamma : ℕ → D
  gamma iterations = from_count 2 ⊘ from_count (iterations + 2)

  abbrev pub blend : D → D → D → D
  blend g m s = (d.one ⊖ g) ⊗ m ⊕ g ⊗ s

  -- The loop over `0..n`, none where the index is out of bounds.
  unfoldable pub move_towards : D → List D → List D → Option (List D)
  move_towards g [] ss = some []
  move_towards g (m ∷ ms) [] = none
  move_towards g (m ∷ ms) (s ∷ ss) = elim (move_towards g ms ss) [
    | none ↦ none
    | some rest ↦ some (blend g m s ∷ rest)
  ]

  -- The given problem with the gradient as its objective.
  abbrev pub oracle_problem : List D → IlpProblem D → IlpProblem D
  oracle_problem grad problem = record {
    lp = record {
      objective = grad;
      constraints = problem.lp.constraints;
      bounds = problem.lp.bounds;
    };
    integer_vars = problem.integer_vars;
  }

  abbrev pub is_small : FrankWolfeConfig D → D → Bool
  is_small config gap = abs gap <? config.tolerance

  abbrev pub start : List D → Progress D
  start theta = record { mu = theta; gap = d.largest; iterations = 0 }

module _ {D F E : Type 0} ⦃d : Decimal D⦄ (x : Float D F)
    (solve_ilp : IlpProblem D → Result (LpSolution D) E) (config : FrankWolfeConfig D) where
  unfoldable pub iterate : ℕ → List D → IlpProblem D → Progress D → Result (Progress D) (Fault E)
  iterate zero theta problem p = ok p
  iterate (suc turns) theta problem p =
      let grad = bregman_gradient x p.mu theta in
      let started = record p { iterations = suc p.iterations } in
      elim (solve_ilp (oracle_problem grad problem)) [
        | err e ↦ err (failed e)
        | ok solution ↦ elim (is_optimal solution.status) [
          | false ↦ ok started
          | true ↦
              let gap = gap_from d.nought grad p.mu solution.values in
              elim (is_small config gap) [
                | true ↦ ok (record started { gap = gap })
                | false ↦ elim (move_towards (gamma (suc p.iterations)) p.mu solution.values) [
                  | none ↦ err out_of_bounds
                  | some mu ↦
                      iterate turns theta problem
                        (record { mu = mu; gap = gap; iterations = suc p.iterations })
                ]
              ]
        ]
      ]

  -- After the loop.
  abbrev pub concluded :
      List D → Result (Progress D) (Fault E) → Result (FrankWolfeResult D) (Fault E)
  concluded theta (err e) = err e
  concluded theta (ok p) = ok (record {
    mu = p.mu;
    gap = bregman_divergence x p.mu theta;
    iterations = p.iterations;
    converged = is_small config p.gap;
  })

  unfoldable pub project : List D → IlpProblem D → Result (FrankWolfeResult D) (Fault E)
  project theta problem =
      if is_empty theta
      then ok (record { mu = []; gap = d.nought; iterations = 0; converged = true })
      else concluded theta (iterate config.max_iterations theta problem (start theta))

  abbrev as_projection :
      Result (FrankWolfeResult D) (Fault E) → Result (ProjectionResult D) (Fault E)
  as_projection (err e) = err e
  as_projection (ok r) =
      ok (record { values = r.mu; gap = r.gap; iterations = r.iterations; converged = r.converged })

  -- `FrankWolfeProjectionSolver::project`.
  unfoldable pub projection_solver : List D → IlpProblem D → Result (ProjectionResult D) (Fault E)
  projection_solver theta problem = as_projection (project theta problem)

  abbrev pub has_arbitrage : D → FrankWolfeResult D → Bool
  has_arbitrage threshold r = threshold <? r.gap
