-- ===== src/Backup.antt =====
-- db/backup.rs: the copies of the database, their check and their repair.
mod Defs
mod Write
mod Restore
pub mod Check
unfoldable pub use Defs.*
unfoldable pub use Write.*
unfoldable pub use Restore.*
