-- ===== src/Mirror.antt =====
-- core/mirror.rs: copies between the two drives of a pair.
mod Defs
pub mod Copies
unfoldable pub use Defs.*
