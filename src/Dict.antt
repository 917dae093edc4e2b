-- ===== src/Dict.antt =====
-- Go's `map[string]V`: an association list whose keys are distinct (`IsMap`). `range` visits the
-- entries in an order that Go leaves open: the code's loops run down the list, and a statement that
-- must not rest on the order ranges over every list with the same entries.
mod Defs
mod Laws
mod Range
unfoldable pub use Defs.*
pub use Laws.*
pub use Range.*
