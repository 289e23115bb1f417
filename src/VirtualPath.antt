-- ===== src/VirtualPath.antt =====
-- core/virtual_path.rs: absolute paths at which tracked files and folders are shown, as links to
-- the active drive.
pub mod Normalize
pub mod Refresh
pub mod Frame
pub mod Assign
pub mod Links
