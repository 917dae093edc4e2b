-- ===== src/Cost.antt =====
-- The package cost: `Money` is cost.go, and `Component`, `Resource`, `State` and `Plan` are the
-- files of those names.
pub mod Money
pub mod Component
pub mod Resource
pub mod State
pub mod Totals
pub mod Plan
pub mod Tests
