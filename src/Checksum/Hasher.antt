-- ===== src/Checksum/Hasher.antt =====
-- The blake3 crate, as far as core/checksum.rs uses it: an incremental hasher whose result is
-- that of hashing all its input at once.
use bitprotector.Base.{◌≡◌, [], ◌++◌, Text}
use bitprotector.Fs.{Bytes}

pub record Blake3 : Type 1 where
  pub Hasher : Type 0
  -- Hasher::new
  pub new : Hasher
  -- Hasher::update, and Hasher::update_mmap_rayon on the bytes of the mapped file
  pub update : Hasher → Bytes → Hasher
  -- Hasher::finalize and to_hex
  pub finalize : Hasher → Text
  -- blake3::hash and to_hex
  pub hash : Bytes → Text
  pub update-nil : (h : Hasher) → update h [] ≡ h
  pub update-append : (h : Hasher) (a b : Bytes) → update (update h a) b ≡ update h (a ++ b)
  pub finalize-update : (b : Bytes) → finalize (update new b) ≡ hash b
