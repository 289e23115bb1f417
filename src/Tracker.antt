-- ===== src/Tracker.antt =====
-- core/tracker.rs: the files and folders that are kept on both drives.
mod Defs
pub mod Scan
pub mod Creation
unfoldable pub use Defs.*
