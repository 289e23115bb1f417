-- ===== src/Fs.antt =====
-- What the program uses of std::fs and std::path: a file system as a map from paths to nodes,
-- with the answers of the operating system (permissions, room on the disk) as functions that the
-- program does not change. Paths are compared as texts, as the program writes them.
mod Defs
pub mod Dirs
unfoldable pub use Defs.*
