-- ===== src/Decimal.antt =====
-- `decimal.Decimal` of github.com/shopspring/decimal, which the program only calls: any type `D`
-- with the operations that the code uses. A value of `D` is the Go struct, so a zero that was computed
-- is another value than `decimal.Decimal{}`, and Go's `==` (`same`) tells them apart.
mod Defs
mod Sample
pub mod Sums
pub use Defs.*
pub use Sample.*
