-- ===== src/Db.antt =====
-- db/schema.rs and db/repository.rs: the tables, and the statements of the repository as
-- procedures on the state of the program.
pub mod Rows
pub mod RunRows
pub mod World
pub mod Pairs
pub mod Files
pub mod Queue
pub mod Settings
pub mod Folders
pub mod Like
pub mod Listing
pub mod Registration
pub mod Provenance
pub mod Runs
pub mod Backups
pub mod Schedules
