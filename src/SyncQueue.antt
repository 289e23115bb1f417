-- ===== src/SyncQueue.antt =====
-- core/sync_queue.rs: the processing of the queue, the resolution of items and their creation.
pub mod Create
pub mod Process
pub mod Drain
pub mod Resolve
