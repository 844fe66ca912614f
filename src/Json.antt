-- ===== src/Json.antt =====
-- JSON as Python's `json` module gives it, and the operations that the scripts apply to it: `v[k]`,
-- `v.get(k, d)`, `len`, `isinstance`, truth, `in`, `==`, and the exceptions that they raise.
mod Data
mod Access
mod Equality
pub mod Unique
pub mod Ensures
pub use Data.*
unfoldable pub use Access.*
unfoldable pub use Equality.{equals}
