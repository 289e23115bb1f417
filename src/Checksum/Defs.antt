-- ===== src/Checksum/Defs.antt =====
-- The functions of core/checksum.rs in the order of the file.
use bitprotector.Base.{
  ℕ, zero, suc, ◌/◌, Bool, ◌==◌, leb, if◌then◌else◌, [], ◌∷◌, Text, text_eq, length, take, drop,
  Exec, pure, raise, raise_if, read_failed, gets, ignore, ◌>>=◌, ◌>>◌, checksum_mismatch,
}
use bitprotector.Fs.{
  FilePath, Bytes, Fs, content, node_mode, open_file, read_fails, read_to_end, readable,
  create_file, write_all, remove_file, set_permissions,
}
use bitprotector.Checksum.Hasher.{Blake3}

-- drive::DriveMediaType
pub data DriveMediaType : Type 0 where
  hdd ssd : DriveMediaType

pub data ChecksumStrategy : Type 0 where
  streaming mmap_rayon : ChecksumStrategy

-- system::mmap_threshold_bytes, from the RAM that the machine reports.
unfoldable pub mmap_threshold_bytes : ℕ → ℕ
mmap_threshold_bytes total_ram = total_ram / 2

-- system::default_ssd_parallel, from the number of CPUs.
unfoldable pub default_ssd_parallel : ℕ → ℕ
default_ssd_parallel num_cpus = if leb (num_cpus / 2) 2 then 2 else num_cpus / 2

-- ChecksumStrategy::for_drive
unfoldable pub for_drive : ℕ → DriveMediaType → ℕ → ChecksumStrategy
for_drive total_ram ssd size =
    if leb size (mmap_threshold_bytes total_ram) then mmap_rayon else streaming
for_drive total_ram hdd size = streaming

pub record ChecksumConfig : Type 0 where
  pub hdd_max_parallel : ℕ
  pub ssd_max_parallel : ℕ
  pub resolved_ssd_parallel : ℕ

-- ChecksumConfig::resolve
unfoldable pub resolve : ℕ → ℕ → ℕ → ChecksumConfig
resolve num_cpus hdd_max ssd_max = record {
  hdd_max_parallel = hdd_max;
  ssd_max_parallel = ssd_max;
  resolved_ssd_parallel = if ssd_max == 0 then default_ssd_parallel num_cpus else ssd_max;
}

unfoldable pub pool_size_for_pair : DriveMediaType → DriveMediaType → ChecksumConfig → ℕ
pool_size_for_pair ssd ssd cfg = cfg.resolved_ssd_parallel
pool_size_for_pair ssd hdd cfg = cfg.hdd_max_parallel
pool_size_for_pair hdd _ cfg = cfg.hdd_max_parallel

-- `let mut buf = [0u8; 65536]`
abbrev pub buf_size : ℕ
buf_size = 65536

-- copy_permissions
unfoldable pub copy_permissions : FilePath → FilePath → Exec Fs (Unit {0})
copy_permissions src dst = do mode ← gets (λ fs. node_mode (fs.node src)); set_permissions dst mode

module _ (b3 : Blake3) where
  open b3 use {Hasher, new, update, finalize, hash}

  unfoldable pub checksum_bytes : Bytes → Text
  checksum_bytes data' = hash data'

  -- The streaming loop over what an open file still holds, `k` bytes at a time. A read of no
  -- byte ends it. The fuel bounds the rounds.
  unfoldable pub hash_loop : ℕ → ℕ → Bytes → Hasher → Hasher
  hash_loop k zero rest h = h
  hash_loop k (suc fuel) rest h = elim (take k rest) [
    | [] ↦ h
    | c ∷ cs ↦ hash_loop k fuel (drop k rest) (update h (c ∷ cs))
  ]

  unfoldable pub hash_content : ChecksumStrategy → Bytes → Text
  hash_content mmap_rayon b = finalize (update new b)
  hash_content streaming b = finalize (hash_loop buf_size (suc (length b)) b new)

  unfoldable pub checksum_file : FilePath → ChecksumStrategy → Exec Fs Text
  checksum_file p strategy = do
    open_file p
    read_to_end p
    gets (λ fs. hash_content strategy (content fs p))

  -- The loop of copy_with_checksum: every chunk goes to both hashers and to the destination.
  unfoldable pub copy_loop : ℕ → ℕ → FilePath → Bytes → Hasher → Hasher → Exec Fs (Hasher × Hasher)
  copy_loop k zero dst rest sh dh = pure (sh, dh)
  copy_loop k (suc fuel) dst rest sh dh = elim (take k rest) [
    | [] ↦ pure (sh, dh)
    | c ∷ cs ↦
        write_all dst (c ∷ cs)
        >> copy_loop k fuel dst (drop k rest) (update sh (c ∷ cs)) (update dh (c ∷ cs))
  ]

  unfoldable pub copy_with_checksum : FilePath → FilePath → Exec Fs (Text × Text)
  copy_with_checksum src dst = do
    open_file src
    fails ← gets (λ fs. read_fails fs src)
    create_file dst
    b ← gets (λ fs. readable fs src)
    hs ← copy_loop buf_size (suc (length b)) dst b new new
    raise_if fails read_failed
    copy_permissions src dst
    pure (finalize hs.0, finalize hs.1)

  -- The loop of copy_and_verify_checksum, with one hasher.
  unfoldable pub verify_loop : ℕ → ℕ → FilePath → Bytes → Hasher → Exec Fs Hasher
  verify_loop k zero dst rest h = pure h
  verify_loop k (suc fuel) dst rest h = elim (take k rest) [
    | [] ↦ pure h
    | c ∷ cs ↦ write_all dst (c ∷ cs) >> verify_loop k fuel dst (drop k rest) (update h (c ∷ cs))
  ]

  unfoldable pub copy_and_verify_checksum : FilePath → FilePath → Text → Exec Fs (Unit {0})
  copy_and_verify_checksum src dst expected = do
    open_file src
    fails ← gets (λ fs. read_fails fs src)
    create_file dst
    b ← gets (λ fs. readable fs src)
    h ← verify_loop buf_size (suc (length b)) dst b new
    raise_if fails read_failed
    if text_eq (finalize h) expected
        then copy_permissions src dst
        else do ignore (remove_file dst); raise checksum_mismatch

  unfoldable pub verify_file : FilePath → Text → Exec Fs Bool
  verify_file p expected = do actual ← checksum_file p streaming; pure (text_eq actual expected)
