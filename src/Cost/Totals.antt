-- ===== src/Cost/Totals.antt =====
-- What the summing loops of the package cost come to: the sum, when they fail, and that the order in
-- which `range` visits a map does not matter.
mod Addition
mod Loop
mod Order
pub use Addition.*
pub use Loop.*
pub use Order.*
