-- ===== src/Money.antt =====
-- `rust_decimal::Decimal`, the type of prices and volumes (src/domain/money.rs): a parameter of the
-- development, since the crate is not part of the repository. `Decimal` holds the operations that
-- the code calls, and `IsExact` what it relies on.
mod Defs
mod Laws
pub mod Cents
pub use Defs.{Decimal, IsExact, ◌⊕◌, ◌⊖◌, ◌⊗◌, ◌⊘◌, ◌<?◌, ◌≤?◌, ◌≼◌, ◌≺◌, min, max, abs}
unfoldable pub use Defs.{sum, sum_from}
pub use Laws.*
