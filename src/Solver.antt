-- ===== src/Solver.antt =====
-- src/application/solver: the projection of prices onto what the constraints allow.
pub mod Bregman
pub mod FrankWolfe
pub mod Sizes
pub mod Certificate
