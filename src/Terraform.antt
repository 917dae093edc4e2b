-- ===== src/Terraform.antt =====
-- The package terraform, without HCL. Of plan.go `Address` is `cleanResourceAddresss`, `Providers` the
-- choice of a plan's providers, with provider.go, `Expressions` the evaluation of a resource's
-- expressions, `Configuration` and `Queries` the walks over the modules, `Plan` the rest.
pub mod Json
pub mod Address
pub mod Providers
pub mod Expressions
pub mod Configuration
pub mod Queries
pub mod Plan
pub mod Tests
