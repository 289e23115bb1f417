-- ===== src/Backup/Restore.antt =====
-- db/backup.rs: staging a restore, and applying it when the service starts.
use bitprotector.VirtualPath.Normalize.{split_slash, starts_with_slash, trim}
use bitprotector.Fs.{Bytes, FilePath, Fs, copy, exists, is_file, remove_file}
use bitprotector.Checksum.Hasher.{Blake3}
use bitprotector.Base.{
  Bool, Error, Exec, List, Option, Result, Text, [], database_path_invalid, false, gets,
  if◌then◌else◌, length, none, not, pure, raise_if, some, text, text_eq, true, ◌++◌, ◌==◌, ◌>>=◌,
  ◌>>◌, ◌||◌, ◌∷◌,
}
use bitprotector.Backup.Defs.{rename, verify_sqlite_database}

pub record RestoreResult : Type 0 where
  pub status : Text
  pub restart_required : Bool
  pub safety_backup_path : FilePath
  pub staged_restore_path : FilePath

unfoldable pub pending_restore_path : FilePath → FilePath
pending_restore_path db_path = db_path ++ text ".restore-pending"

unfoldable pub safety_backup_path_at : Text → FilePath → FilePath
safety_backup_path_at stamp db_path = db_path ++ (text ".safety-" ++ stamp)

-- Some component is `..`.
unfoldable pub has_parent_dir : List Text → Bool
has_parent_dir [] = false
has_parent_dir (c ∷ cs) = text_eq c (text "..") || has_parent_dir cs

module _ (b3 : Blake3) (sqlite_ok : Bytes → Bool) (shown : Error → Text) (stamp : Text)
    (canonical : Fs → FilePath → Result FilePath) where
  unfoldable pub validate_db_restore_target_path : FilePath → Exec Fs FilePath
  validate_db_restore_target_path db_path = do
    raise_if (length (trim db_path) == 0) database_path_invalid
    raise_if (not (text_eq db_path (trim db_path))) database_path_invalid
    raise_if (has_parent_dir (split_slash db_path)) database_path_invalid
    raise_if (not (starts_with_slash db_path)) database_path_invalid
    canonical_path ← (λ fs. (canonical fs db_path, fs))
    raise_if (not (text_eq canonical_path db_path)) database_path_invalid
    present ← gets (λ fs. is_file fs canonical_path)
    raise_if (not present) database_path_invalid
    pure canonical_path

  unfoldable pub stage_restore : FilePath → FilePath → Exec Fs RestoreResult
  stage_restore db_path source = do
    trusted ← validate_db_restore_target_path db_path
    verify_sqlite_database b3 sqlite_ok shown stamp source
    copy trusted (safety_backup_path_at stamp trusted)
    verify_sqlite_database b3 sqlite_ok shown stamp (safety_backup_path_at stamp trusted)
    copy source (pending_restore_path trusted)
    verify_sqlite_database b3 sqlite_ok shown stamp (pending_restore_path trusted)
    pure (record {
      status = text "staged";
      restart_required = true;
      safety_backup_path = safety_backup_path_at stamp trusted;
      staged_restore_path = pending_restore_path trusted;
    })

  abbrev pub when_present : FilePath → Exec Fs (Unit {0}) → Exec Fs (Unit {0})
  when_present path m = do present ← gets (λ fs. exists fs path); if present then m else pure tt

  unfoldable pub apply_staged : FilePath → Exec Fs (Option FilePath)
  apply_staged db_path = do
    verify_sqlite_database b3 sqlite_ok shown stamp (pending_restore_path db_path)
    when_present db_path (copy db_path (safety_backup_path_at stamp db_path))
    when_present (db_path ++ text "-wal") (remove_file (db_path ++ text "-wal"))
    when_present (db_path ++ text "-shm") (remove_file (db_path ++ text "-shm"))
    rename (pending_restore_path db_path) db_path
    pure (some (safety_backup_path_at stamp db_path))

  unfoldable pub apply_pending_restore : FilePath → Exec Fs (Option FilePath)
  apply_pending_restore db_path = do
    staged ← gets (λ fs. exists fs (pending_restore_path db_path))
    if staged then apply_staged db_path else pure none
