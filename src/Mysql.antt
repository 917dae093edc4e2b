-- ===== src/Mysql.antt =====
-- The package mysql: `Filters` is filters.go, and `Rows` the rows of product.go and price.go.
pub mod Filters
pub mod Placeholders
pub mod Rows
pub mod Tests
