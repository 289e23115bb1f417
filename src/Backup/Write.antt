-- ===== src/Backup/Write.antt =====
-- db/backup.rs: the snapshot of the live database and its way to every destination. What resolves
-- symbolic links and what SQLite's backup writes are parameters.
use bitprotector.VirtualPath.Normalize.{trim}
use bitprotector.Fs.{
  Bytes, FilePath, Fs, create_parent, ends_with_slash, exists, is_file, remove_file,
}
use bitprotector.Db.Listing.{has_prefix}
use bitprotector.Db.Backups.{
  DbBackupConfig, list_db_backup_configs, mark_db_backup_settings_backup_run,
  update_db_backup_error, update_db_backup_last_backup,
}
use bitprotector.Checksum.Hasher.{Blake3}
use bitprotector.Base.Table.{select}
use bitprotector.Base.{
  Bool, Error, Exec, List, Result, Text, [], database_path_invalid, gets, if◌then◌else◌, ignore,
  length, none, not, ok, pure, raise_if, some, text, text_eq, ◌++◌, ◌==◌, ◌>>=◌, ◌>>◌, ◌||◌, ◌∷◌,
}
use bitprotector.Backup.Defs.{
  BackupResult, Store, backup_file_path, dest_dir_of, handle, on_database, on_disk,
  verify_sqlite_database, write_backup_file,
}

-- Path::strip_prefix succeeds, for a root that is canonical.
unfoldable pub is_under : FilePath → FilePath → Bool
is_under root path =
    text_eq path root
    || has_prefix (if ends_with_slash root then root else root ++ text "/") (some path)

module _ (b3 : Blake3) (sqlite_ok : Bytes → Bool) (shown : Error → Text) (stamp : Text)
    (canonical : Fs → FilePath → Result FilePath)
    (sqlite_backup : FilePath → FilePath → Exec Fs (Unit {0})) where
  unfoldable pub validate_live_db_path : FilePath → Exec Fs FilePath
  validate_live_db_path db_path = do
    raise_if (length (trim db_path) == 0) database_path_invalid
    trusted_root ← (λ fs. (canonical fs (dest_dir_of db_path), fs))
    live ← (λ fs. (canonical fs db_path, fs))
    raise_if (not (is_under trusted_root live)) database_path_invalid
    present ← gets (λ fs. is_file fs live)
    raise_if (not present) database_path_invalid
    pure live

  abbrev pub remove_old : FilePath → Exec Fs (Unit {0})
  remove_old path = do
    present ← gets (λ fs. exists fs path)
    if present then remove_file path else pure tt

  unfoldable pub create_sqlite_snapshot : FilePath → FilePath → Exec Fs (Unit {0})
  create_sqlite_snapshot db_path snapshot_path = do
    create_parent snapshot_path
    remove_old snapshot_path
    live ← validate_live_db_path db_path
    sqlite_backup live snapshot_path
    verify_sqlite_database b3 sqlite_ok shown stamp snapshot_path

  -- The body of the loop of run_all_backups.
  unfoldable pub backup_one : FilePath → DbBackupConfig → Exec Store BackupResult
  backup_one snapshot config =
      handle (on_disk (write_backup_file b3 sqlite_ok shown stamp snapshot config))
        (λ path s. (
          ok (record {
            backup_config_id = config.id;
            backup_path = path;
            status = text "success";
            error = none;
          }),
          (on_database (update_db_backup_last_backup config.id) s).1,
        ))
        (λ e s. (
          ok (record {
            backup_config_id = config.id;
            backup_path = backup_file_path config;
            status = text "failed";
            error = some (shown e);
          }),
          (on_database (update_db_backup_error config.id (some (shown e))) s).1,
        ))

  unfoldable pub backup_each : FilePath → List DbBackupConfig → Exec Store (List BackupResult)
  backup_each snapshot [] = pure []
  backup_each snapshot (c ∷ cs) = do
    result ← backup_one snapshot c
    rest ← backup_each snapshot cs
    pure (result ∷ rest)

  abbrev pub backup_enabled_to :
      FilePath → FilePath → List DbBackupConfig → Exec Store (List BackupResult)
  backup_enabled_to db_path snapshot [] = pure []
  backup_enabled_to db_path snapshot (c ∷ cs) = do
    on_disk (create_sqlite_snapshot db_path snapshot)
    results ← backup_each snapshot (c ∷ cs)
    ignore (on_database mark_db_backup_settings_backup_run)
    pure results

  unfoldable pub run_all_backups : FilePath → FilePath → Exec Store (List BackupResult)
  run_all_backups db_path snapshot = do
    configs ← on_database list_db_backup_configs
    backup_enabled_to db_path snapshot (select (λ c. c.enabled) configs)

  unfoldable pub backup_to_destination : FilePath → FilePath → DbBackupConfig → Exec Fs FilePath
  backup_to_destination db_path snapshot config = do
    create_sqlite_snapshot db_path snapshot
    write_backup_file b3 sqlite_ok shown stamp snapshot config
