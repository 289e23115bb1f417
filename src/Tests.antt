-- ===== src/Tests.antt =====
-- Concrete inputs for the theorems: a small file system, a pair of drives and its queue.
mod Data
mod Copying
mod Pairs
mod Replacing
mod Queueing
mod Work
mod Runs
mod Tracking
mod Scheduling
mod BackingUp
