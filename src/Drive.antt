-- ===== src/Drive.antt =====
-- core/drive.rs: the roles and states of the two drives of a pair, and the operations that move
-- a pair through failover, replacement and rebuild.
pub mod Names
pub mod Pair
pub mod Ops
pub mod Runtime
pub mod Lifecycle
pub mod Failover
pub mod Takeover
pub mod Rebuild
pub mod Replacement
