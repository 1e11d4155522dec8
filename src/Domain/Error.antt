-- ===== src/Domain/Error.antt =====
-- src/domain/error.rs: what the validating constructors report.
pub data DomainError (D : Type 0) : Type 0 where
  non_positive_volume : D → DomainError D
  payout_not_greater_than_cost : (payout cost : D) → DomainError D
  empty_outcomes : DomainError D
  non_positive_payout : D → DomainError D
  empty_legs : DomainError D
