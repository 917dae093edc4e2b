-- ===== src/Lib.antt =====
-- Verification of terracost, a Go library that estimates what a Terraform plan costs.
--
-- The program ingests the price lists of cloud vendors into a database (ingestion.go, aws, mysql),
-- turns the resources of a plan into queries for products and prices (aws/terraform), asks the
-- database for them, and adds the prices up to the costs of two states, before and after the plan, and
-- to the differences between them (cost).
--
-- Files, by the code they model:
--   Query       product/filter.go, product/product.go, price/filter.go, price/price.go and
--               query/query.go: the records that the packages exchange.
--   Errors      Go's errors as values; `Run` also has the panic, where a call can end in one.
--   Cost        cost: `Money` is cost.go, `Component` component.go, `Resource` resource.go, `State`
--               state.go and `Plan` plan.go. The children of `Resource`, `State` and `Plan` and the
--               module `Totals` hold the proofs.
--   Price       price/price.go: `Price.Add`, and `GenerateHash` (`Hash`).
--   Ingestion   ingestion.go: `IngestPricing`.
--   Mysql       mysql/filters.go: the WHERE clauses (`Filters`); mysql/product.go and mysql/price.go: the
--               rows (`Rows`), with the type of the price column of
--               mysql/migrations/v0_initial.go.
--   Aws         aws/region (`Region`), aws/filter.go and aws/services.go (`Filter`), aws/ingester.go
--               (`Ingester`), from a row to a product with its price, aws/terraform_provider.go
--               (`Initializer`), and aws/terraform: the provider's record (`Resources`), its choice by
--               a resource's type (`Components`) and a module for each resource or group of them.
--               `Decoding` has what is a parameter there. `Matching`, `Ingested`, `Gateways`,
--               `Databases` and the children of the others hold the proofs.
--   Terraform   the package terraform without HCL, in plan.go, provider.go and schema.go: the cleaning
--               of addresses (`Address`), the providers of a plan (`Providers`), the evaluation of a
--               resource's expressions (`Expressions`), the walks over the modules of the
--               configuration (`Configuration`) and of the states (`Queries`), and the plan (`Plan`).
--               `Json` has the values that Go keeps as interface{}.
--   Estimation  estimation.go: `EstimateTerraformPlan`, from the decoded document to the two states.
--   Catalog     what the two repositories' `Filter` promises, as a test of one product.
--   Dict, Decimal, Prelude: maps, decimals and shared names.
--
-- Functions keep their names, in snake case (`NewState` is `new_state`). A method takes its receiver
-- last or first, as its clauses show; a method that changes its receiver returns the new one. A pointer
-- that may be nil is an `Option`, and so is a map that may be nil: a write to a nil map, a panic in Go,
-- is `none` and then `panic`. A map is a list of entries; what a loop over a map does is said for the
-- order of the list, and `Dict/Range` has the relation of two lists that differ in the order only. A
-- loop over a list or a map is structural recursion, so no fuel is needed.
--
-- `decimal.Decimal` belongs to another package. Its operations are a parameter, the record `Decimal`;
-- what the code relies on, that addition and multiplication are exact, that `IsZero` tests the value
-- and Go's `==` the struct, is the record `IsExact`, which `Decimal/Sample` shows can be met. Regular
-- expressions, MD5 sums, the division and rounding of decimals in queues, and what a backend answers are
-- parameters as well. A float is read by its sign and by the decimal that is made of it.
--
-- The decoding of a resource's values by mapstructure is a parameter, a function for each type that
-- returns the values or an error. The values that a JSON document holds as interface{} are `Json`;
-- `fmt.Sprintf` of one of them is a parameter, and so is what a column of a decimal type keeps of a
-- decimal; the other columns give back what was put in them. Modules hold modules: the walks are structural recursion
-- on the tree and its list of calls or children.
--
-- Not modelled: the decoding of the JSON of plans, HCL (package terraform) and the entry points of
-- estimation.go for it, which walk the values of Terraform's own packages, the ingesters' downloads, the
-- execution of SQL and the migrations, the packages azurerm and google, whose shape is that of aws, the
-- table and the merge of the usage file, and the mocks, tools and examples.
pub mod Prelude
pub mod Dict
pub mod Decimal
pub mod Errors
pub mod Query
pub mod Cost
pub mod Price
pub mod Catalog
pub mod Ingestion
pub mod Mysql
pub mod Aws
pub mod Terraform
pub mod Estimation
