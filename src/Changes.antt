-- ===== src/Changes.antt =====
-- core/change_detection.rs: comparing the files on the active drive with the stored checksums.
pub mod Defs
pub mod Paging
