-- ===== src/Sidecar.antt =====
-- core/sidecar.rs: the files `<name>.b3` with an expected BLAKE3 hash.
mod Defs
pub mod RoundTrip
unfoldable pub use Defs.*
