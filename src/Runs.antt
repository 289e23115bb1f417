-- ===== src/Runs.antt =====
-- core/integrity_runs.rs: the runs that check all files of a drive pair, or of all pairs.
mod Defs
pub mod Frame
pub mod Processing
pub mod Whole
pub mod Single
pub mod Ends
unfoldable pub use Defs.*
