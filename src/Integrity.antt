-- ===== src/Integrity.antt =====
-- core/integrity.rs: the check of a tracked file on both drives, and its recovery.
mod Defs
pub mod Check
pub mod Recovery
unfoldable pub use Defs.*
