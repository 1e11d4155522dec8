-- ===== src/Examples/Projection.antt =====
-- A projection with a solver that answers each problem with its own objective, and the combinatorial
-- strategy over it.
use edgelord.Common.{ℕ, ◌≡◌, refl, true, [], ◌∷◌, List, some, Result, ok, String, arith}
use edgelord.Common.Int.{ℤ, pos, ◌+ℤ◌, ◌-ℤ◌, ltb_ℤ}
use edgelord.Money.Cents.{cents, mul_cents, div_cents}
use edgelord.Domain.Relation.{Cluster}
use edgelord.Domain.Market.Registry.{MarketRegistry, empty, add}
use edgelord.Cache.Clusters.{ClusterCache}
use edgelord.Detection.Detector.{IlpProblem}
use edgelord.Examples.Data.{rain, election, context}
use edgelord.Solver.Bregman.{Float}
use edgelord.Solver.FrankWolfe.{
  LpSolution, optimal, FrankWolfeConfig, FrankWolfeResult, Fault, project, projection_solver,
}
use edgelord.Solver.Certificate.{Projected, Answers, project_total}
use edgelord.Strategy.Combinatorial.{
  CombinatorialConfig, CombinatorialStrategy, new, set_cache, set_registry, set_projection_solver,
  detect,
}
use edgelord.Strategy.Combinatorial.Found.{
  Set, created, cached, registered, solving, Detected, detect-Detected,
}

abbrev f64 : Float ℤ ℤ
f64 = record {
  to_f64 = λ a. some a;
  try_from = λ f. some f;
  zero_f = pos 0;
  one_f = pos 100;
  add_f = λ a b. a +ℤ b;
  sub_f = λ a b. a -ℤ b;
  mul_f = mul_cents;
  div_f = div_cents;
  ln = λ a. a;
  exp = λ a. a;
  lt_f = ltb_ℤ;
}

abbrev solve_ilp : IlpProblem ℤ → Result (LpSolution ℤ) String
solve_ilp p = ok (record { values = p.lp.objective; objective = pos 0; status = optimal })

abbrev fw : FrankWolfeConfig ℤ
fw = record { max_iterations = 3; tolerance = pos 1 }

abbrev problem : IlpProblem ℤ
problem = record {
  lp = record { objective = []; constraints = []; bounds = [] };
  integer_vars = 0 ∷ 1 ∷ [];
}

abbrev theta : List ℤ
theta = pos 40 ∷ pos 70 ∷ []

answers : Answers f64 solve_ilp fw theta problem
answers p =
    (record { values = p.lp.objective; objective = pos 0; status = optimal }, refl, omega arith)

project_total_example :
    (r : FrankWolfeResult ℤ) × (project f64 solve_ilp fw theta problem ≡ ok r)
    × Projected f64 solve_ilp fw theta problem r
project_total_example = project_total f64 solve_ilp fw theta problem refl answers

abbrev cluster : Cluster ℤ ℕ
cluster = record {
  id = "weather";
  markets = "election" ∷ "rain" ∷ [];
  relations = [];
  constraints = [];
  updated_at = 10;
}

abbrev cache : ClusterCache ℤ ℕ
cache = record {
  clusters = ("weather", cluster) ∷ [];
  market_index = ("election", "weather") ∷ ("rain", "weather") ∷ [];
  ttl = 100;
}

abbrev markets : MarketRegistry ℤ
markets = add (add empty rain) election

abbrev combinatorial : CombinatorialConfig ℤ
combinatorial = record {
  max_iterations = 3;
  tolerance = pos 1;
  gap_threshold = pos 2;
  enabled = true;
}

abbrev strategy : CombinatorialStrategy ℤ (Fault String) ℕ
strategy =
    set_projection_solver (projection_solver f64 solve_ilp fw)
      (set_registry markets (set_cache cache (new combinatorial)))

strategy-Set : Set f64 combinatorial strategy
strategy-Set = solving solve_ilp fw refl (registered markets (cached cache created))

detect-Detected_example :
    Detected f64 combinatorial 20 strategy (context rain) (detect 20 strategy (context rain))
detect-Detected_example = detect-Detected f64 combinatorial 20 strategy (context rain) strategy-Set
