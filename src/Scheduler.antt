-- ===== src/Scheduler.antt =====
-- core/scheduler.rs: the threads that run the scheduled tasks.
mod Defs
pub mod Reload
pub mod Task
unfoldable pub use Defs.*
