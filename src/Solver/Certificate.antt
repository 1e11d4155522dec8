-- ===== src/Solver/Certificate.antt =====
-- What a projection (src/application/solver/frank_wolfe.rs) gives.
use edgelord.Common.{
  ℕ, zero, suc, ◌+◌, ◌≤◌, ◌≡◌, ◌⊎◌, refl, ◌∙◌, true, false, List, [], Result, Result-cases, IfOk,
  IfOk-map, ok, err, Option-cases, Bool-cases, inl, inr, length, is_empty, arith,
}
use edgelord.Money.{Decimal}
use edgelord.Detection.Detector.{IlpProblem}
use edgelord.Solver.Bregman.{Float, bregman_gradient, bregman_divergence}
use edgelord.Solver.FrankWolfe.{
  LpSolution, is_optimal, FrankWolfeConfig, FrankWolfeResult, Progress, Fault, concluded, gap_from,
  gamma, move_towards, oracle_problem, is_small, iterate, start, project,
}
use edgelord.Solver.Sizes.{length-move_towards, move_towards_total, length-bregman_gradient}

module _ {D F E : Type 0} ⦃d : Decimal D⦄ (x : Float D F)
    (solve_ilp : IlpProblem D → Result (LpSolution D) E) (config : FrankWolfeConfig D)
    (theta : List D) (problem : IlpProblem D) where
  -- An optimal answer of the solver for the gradient at these prices, with this gap.
  pub record Certificate (mu : List D) (gap : D) : Type 0 where
    pub solution : LpSolution D
    pub answered : solve_ilp (oracle_problem (bregman_gradient x mu theta) problem) ≡ ok solution
    pub optimal_answer : is_optimal solution.status ≡ true
    pub measured : gap ≡ gap_from d.nought (bregman_gradient x mu theta) mu solution.values
    pub small : is_small config gap ≡ true

  -- What holds of the loop's result, if it started with `p` and this many turns.
  record Ended (turns : ℕ) (p q : Progress D) : Type 0 where
    bounded : q.iterations ≤ p.iterations + turns
    same_size : length q.mu ≡ length p.mu
    certified : is_small config q.gap ≡ true → Certificate q.mu q.gap

  extend :
      (turns : ℕ) (p next q : Progress D)
      → next.iterations ≤ suc p.iterations
      → length next.mu ≡ length p.mu
      → Ended turns next q
      → Ended (suc turns) p q
  extend turns p next q h k e = record {
    bounded = omega (arith, h, e.bounded);
    same_size = e.same_size ∙ k;
    certified = e.certified;
  }

  iterate-Ended :
      (turns : ℕ) (p : Progress D)
      → is_small config p.gap ≡ false
      → IfOk (Ended turns p) (iterate x solve_ilp config turns theta problem p)
  unfolding iterate
  iterate-Ended zero p big = record {
    bounded = omega arith;
    same_size = refl;
    certified = λ h. absurd (cc);
  }
  iterate-Ended (suc turns) p big =
      let grad = bregman_gradient x p.mu theta in
      elim (Result-cases (solve_ilp (oracle_problem grad problem))) [
        | inr (e, f) ↦ rw (f, iterate) tt
        | inl (s, f) ↦ elim (Bool-cases (is_optimal s.status)) [
          | inr no_answer ↦
              rw (f, no_answer, iterate)
                (record { bounded = omega arith; same_size = refl; certified = λ h. absurd (cc) })
          | inl answer ↦
              let gap = gap_from d.nought grad p.mu s.values in
              elim (Bool-cases (is_small config gap)) [
                | inl found ↦
                    rw (f, answer, found, iterate)
                      (record {
                        bounded = omega arith;
                        same_size = refl;
                        certified = λ h. record {
                          solution = s;
                          answered = f;
                          optimal_answer = answer;
                          measured = refl;
                          small = found;
                        };
                      })
                | inr more ↦
                    elim (Option-cases (move_towards (gamma (suc p.iterations)) p.mu s.values)) [
                      | inl short ↦ rw (f, answer, more, short, iterate) tt
                      | inr (mu, moved) ↦
                          let next : Progress D = record {
                            mu = mu;
                            gap = gap;
                            iterations = suc p.iterations;
                          } in
                          rw (f, answer, more, moved, iterate)
                            (IfOk-map (Ended turns next) (Ended (suc turns) p)
                              (iterate x solve_ilp config turns theta problem next)
                              (λ q. extend turns p next q (omega arith) (
                                length-move_towards (gamma (suc p.iterations)) p.mu s.values moved))
                              (iterate-Ended turns next more))
                    ]
              ]
        ]
      ]

module _ {D F E : Type 0} ⦃d : Decimal D⦄ (x : Float D F)
    (solve_ilp : IlpProblem D → Result (LpSolution D) E) (config : FrankWolfeConfig D)
    (theta : List D) (problem : IlpProblem D) where
  -- What a projection promises: no more iterations than configured, a price for each given one, and,
  -- where it says that it converged, no prices or an optimal answer of the solver to the gradient at
  -- just the resulting prices that leaves a gap below the tolerance.
  pub record Projected (r : FrankWolfeResult D) : Type 0 where
    pub in_time : r.iterations ≤ config.max_iterations
    pub all_prices : length r.mu ≡ length theta
    pub convergence :
        (r.converged ≡ false)
        ⊎ (theta ≡ [])
        ⊎ ((gap : D) × Certificate x solve_ilp config theta problem r.mu gap)

  concluded-Projected :
      (ended : Result (Progress D) (Fault E))
      → IfOk (Ended x solve_ilp config theta problem config.max_iterations (start theta)) ended
      → IfOk Projected (concluded x solve_ilp config theta ended)
  concluded-Projected (err e) h = tt
  concluded-Projected (ok q) h = record {
    in_time = omega (arith, h.bounded);
    all_prices = h.same_size;
    convergence = elim (Bool-cases (is_small config q.gap)) [
      | inr big ↦ inl big
      | inl small ↦ inr (inr (q.gap, h.certified small))
    ];
  }

  pub project-Projected :
      is_small config d.largest ≡ false → IfOk Projected (project x solve_ilp config theta problem)
  unfolding project
  project-Projected big = elim (Bool-cases (is_empty theta)) [
    | inl none_given ↦
        rw (none_given, project)
          (record {
            in_time = omega arith;
            all_prices = ground (arith, none_given);
            convergence = inr (inl (ground (arith, none_given)));
          })
    | inr given ↦
        rw (given, project)
          (concluded-Projected
            (iterate x solve_ilp config config.max_iterations theta problem (start theta))
            (iterate-Ended x solve_ilp config theta problem config.max_iterations (start theta)
              big))
  ]

  -- The solver answers each problem, with a value for each variable.
  abbrev pub Answers : Type 0
  Answers =
      (p : IlpProblem D)
      → (s : LpSolution D) × (solve_ilp p ≡ ok s) × (length p.lp.objective ≤ length s.values)

  iterate_total :
      Answers
      → (turns : ℕ) (p : Progress D) → length p.mu ≤ length theta
      → (q : Progress D) × (iterate x solve_ilp config turns theta problem p ≡ ok q)
  unfolding iterate
  iterate_total answers zero p h = (p, refl)
  iterate_total answers (suc turns) p h =
      let grad = bregman_gradient x p.mu theta in
      let started : Progress D = record p { iterations = suc p.iterations } in
      let (s, f, enough) = answers (oracle_problem grad problem) in
      let size = length-bregman_gradient x p.mu theta h in
      let gap = gap_from d.nought grad p.mu s.values in
      elim (Bool-cases (is_optimal s.status)) [
        | inr no_answer ↦ (started, rw (f, no_answer, iterate))
        | inl answer ↦ elim (Bool-cases (is_small config gap)) [
          | inl found ↦ (record started { gap = gap }, rw (f, answer, found, iterate))
          | inr more ↦
              let g = gamma (suc p.iterations) in
              let (mu, moved) = move_towards_total g p.mu s.values (omega (arith, enough, size)) in
              let next : Progress D = record {
                mu = mu;
                gap = gap;
                iterations = suc p.iterations;
              } in
              let (q, rest) =
                iterate_total answers turns next
                  (omega (arith, h, length-move_towards g p.mu s.values moved)) in
              (q, rw (f, answer, more, moved, iterate) rest)
        ]
      ]

  project_answered :
      Answers → (r : FrankWolfeResult D) × (project x solve_ilp config theta problem ≡ ok r)
  unfolding project
  project_answered answers = elim (Bool-cases (is_empty theta)) [
    | inl none_given ↦ (
      record { mu = []; gap = d.nought; iterations = 0; converged = true },
      rw (none_given, project),
    )
    | inr given ↦
        let (q, e) = iterate_total answers config.max_iterations (start theta) (omega arith) in
        (
          record {
            mu = q.mu;
            gap = bregman_divergence x q.mu theta;
            iterations = q.iterations;
            converged = is_small config q.gap;
          },
          rw (given, e, project),
        )
  ]

  -- With a solver that answers each problem with a value for each variable, and a tolerance that is not
  -- above the largest decimal, the projection has a result: after no more iterations than configured,
  -- with a price for each given one, and converged only if there are no prices or an optimal answer of
  -- the solver to the gradient at just the resulting prices leaves a gap below the tolerance.
  pub project_total :
      is_small config d.largest ≡ false
      → Answers
      → (r : FrankWolfeResult D) × (project x solve_ilp config theta problem ≡ ok r) × Projected r
  project_total big answers =
      let (r, e) = project_answered answers in (r, e, rw e at (project-Projected big))
