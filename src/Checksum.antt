-- ===== src/Checksum.antt =====
-- core/checksum.rs and core/system.rs: BLAKE3 checksums of files, the choice of how a file is
-- hashed, and the copies that hash while they copy.
pub mod Hasher
mod Defs
pub mod Loop
pub mod Copy
unfoldable pub use Defs.*
