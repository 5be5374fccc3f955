-- ===== src/Text.antt =====
-- Go strings as byte lists, and the functions of Go's `strings` that the program calls.
mod Defs
pub mod Split
pub mod Trim
pub mod Plain
pub mod Prefix
unfoldable pub use Defs.*
