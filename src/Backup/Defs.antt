-- ===== src/Backup/Defs.antt =====
-- db/backup.rs: writing a snapshot to every destination, and the check that repairs a destination
-- from a healthy one. SQLite's integrity check and the text of an error are parameters.
use bitprotector.Fs.{
  read_to_end, Bytes, FilePath, Fs, before_slash, content, copy, create_dir_all, create_parent,
  exists, is_dir, is_file, join, open_file, set_node, write,
}
use bitprotector.Db.Queue.{stamp}
use bitprotector.Base.{
  Result, Bool, Error, Exec, List, Option, Text, [], backup_missing, create_failed, database_busy,
  err, false, gets, if◌then◌else◌, ignore, integrity_check_failed, is_some, length, map, none, not,
  ok, pure, raise_if, some, suc, text, text_eq, true, zero, ℕ, ◌&&◌, ◌++◌, ◌==◌, ◌>>=◌, ◌>>◌, ◌||◌,
  ◌∷◌,
}
use bitprotector.Db.Pairs.{given_or}
use bitprotector.Db.Backups.{
  Backups, DbBackupConfig, list_db_backup_configs, mark_db_backup_settings_integrity_run,
  update_db_backup_integrity_status,
}
use bitprotector.Checksum.Hasher.{Blake3}
use bitprotector.Checksum.{hash_loop}
use bitprotector.Base.Table.{select}

abbrev pub backup_filename : Text
backup_filename = text "bitprotector.db"

abbrev pub checksum_filename : Text
checksum_filename = text "bitprotector.db.blake3"

pub record BackupResult : Type 0 where
  pub backup_config_id : ℕ
  pub backup_path : FilePath
  pub status : Text
  pub error : Option Text

pub record BackupIntegrityResult : Type 0 where
  pub backup_config_id : ℕ
  pub backup_path : FilePath
  pub status : Text
  pub checksum : Option Text
  pub repaired_from_id : Option ℕ
  pub error : Option Text

pub record BackupHealth : Type 0 where
  pub config : DbBackupConfig
  pub path : FilePath
  pub checksum : Option Text
  pub error : Option Text

unfoldable pub is_healthy : BackupHealth → Bool
is_healthy h = not (is_some h.error) && is_some h.checksum

unfoldable pub backup_file_path : DbBackupConfig → FilePath
backup_file_path config = join config.backup_path backup_filename

-- The disk, the tables, and for each coming statement whether the database is busy then;
-- past the end of the list it is not.
pub record Store : Type 0 where
  pub fs : Fs
  pub rows : Backups
  pub busy : List Bool

abbrev pub on_disk : {A : Type 0} → Exec Fs A → Exec Store A
on_disk m s = ((m s.fs).0, record s { fs = (m s.fs).1 })

abbrev pub in_rows : {A : Type 0} → Exec Backups A → Exec Store A
in_rows m s = ((m s.rows).0, record s { rows = (m s.rows).1 })

-- `match result { Ok(..) => .., Err(..) => .. }` where neither arm fails.
abbrev pub arms :
    {A B : Type 0} → Result A → (A → Exec Store B) → (Error → Exec Store B) → Exec Store B
arms (ok a) f g = f a
arms (err e) f g = g e

abbrev pub handle :
    {A B : Type 0} → Exec Store A → (A → Exec Store B) → (Error → Exec Store B) → Exec Store B
handle m f g s = arms (m s).0 f g (m s).1

-- A statement on a database that others may hold.
abbrev pub unless_busy : {A : Type 0} → List Bool → Exec Backups A → Exec Store A
unless_busy [] m s = in_rows m s
unless_busy (true ∷ bs) m s = (err database_busy, record s { busy = bs })
unless_busy (false ∷ bs) m s = in_rows m (record s { busy = bs })

abbrev pub on_database : {A : Type 0} → Exec Backups A → Exec Store A
on_database m s = unless_busy s.busy m s

-- update_db_backup_integrity_status
unfoldable pub write_status : ℕ → Text → Option Text → Exec Store (Unit {0})
write_status id status error s =
    unless_busy s.busy (update_db_backup_integrity_status id status error) s

-- fs::rename of a file
unfoldable pub rename : FilePath → FilePath → Exec Fs (Unit {0})
rename src dst fs =
    if is_file fs src && fs.can_write src && fs.can_write dst && not (is_dir fs dst)
    then (ok tt, set_node dst (fs.node src) (set_node src none fs))
    else (err create_failed, fs)

-- The name of a temporary file carries the time.
abbrev pub tmp_name : Text → Text → Text
tmp_name mark stamp =
    text "." ++ (backup_filename ++ (text "." ++ (mark ++ (stamp ++ text ".tmp"))))

-- Path::parent of a path with a file name behind it.
unfoldable pub dest_dir_of : FilePath → FilePath
dest_dir_of dest = elim (before_slash dest) [
  | none ↦ []
  | some [] ↦ text "/"
  | some (c ∷ r) ↦ c ∷ r
]

-- The loop of retry_status_write over the attempts that are left, with the last error.
abbrev pub or_again :
    Result (Unit {0})
    → (Error → Store → (Bool × Option Error) × Store)
    → Store
    → (Bool × Option Error) × Store
or_again (ok done) again s = ((true, none), s)
or_again (err e) again s = again e s

unfoldable pub retry_status_write :
    ℕ → ℕ → Text → Option Text → Option Error → Store → (Bool × Option Error) × Store
retry_status_write zero id status error last s = ((false, last), s)
retry_status_write (suc n) id status error last s =
    or_again (write_status id status error s).0 (λ e. retry_status_write n id status error (some e))
      (write_status id status error s).1

-- primary_healthy.or_else(|| health.iter().find(..)): the first healthy one, as the primary one
-- is the first of all.
unfoldable pub repair_source_of : List BackupHealth → Option (ℕ × FilePath)
repair_source_of [] = none
repair_source_of (h ∷ hs) =
    let rest = repair_source_of hs in if is_healthy h then some (h.config.id, h.path) else rest

-- What a healthy backup is reported as, from the status that was stored last.
unfoldable pub healthy_status : Option Text → Text
healthy_status none = text "ok"
healthy_status (some last) =
    if text_eq last (text "corrupt")
      || text_eq last (text "missing")
      || text_eq last (text "failed")
    then text "repaired"
    else text "ok"

unfoldable pub broken_status : Bool → Text
broken_status present = if present then text "corrupt" else text "missing"

abbrev pub answer :
    BackupHealth → Text → Option Text → Option ℕ → Option Text → BackupIntegrityResult
answer h status checksum from error = record {
  backup_config_id = h.config.id;
  backup_path = h.path;
  status = status;
  checksum = checksum;
  repaired_from_id = from;
  error = error;
}

module _ (b3 : Blake3) (sqlite_ok : Bytes → Bool) (shown : Error → Text) (stamp : Text) where
  unfoldable pub checksum_backup : FilePath → Exec Fs Text
  checksum_backup path = do
    open_file path
    read_to_end path
    gets (λ fs.
        Blake3.finalize b3
          (hash_loop b3 8192 (suc (length (content fs path))) (content fs path) (Blake3.new b3)))

  unfoldable pub verify_sqlite_database : FilePath → Exec Fs (Unit {0})
  verify_sqlite_database path = do
    present ← gets (λ fs. is_file fs path)
    raise_if (not present) backup_missing
    open_file path
    read_to_end path
    sound ← gets (λ fs. sqlite_ok (content fs path))
    raise_if (not sound) integrity_check_failed

  unfoldable pub write_backup_file : FilePath → DbBackupConfig → Exec Fs FilePath
  write_backup_file snapshot config = do
    create_dir_all config.backup_path
    copy snapshot (join config.backup_path (tmp_name [] stamp))
    verify_sqlite_database (join config.backup_path (tmp_name [] stamp))
    checksum ← checksum_backup (join config.backup_path (tmp_name [] stamp))
    rename (join config.backup_path (tmp_name [] stamp)) (backup_file_path config)
    write (join config.backup_path checksum_filename) checksum
    pure (backup_file_path config)

  unfoldable pub copy_backup_atomically : FilePath → FilePath → Exec Fs (Unit {0})
  copy_backup_atomically source dest = do
    create_parent dest
    copy source (join (dest_dir_of dest) (tmp_name (text "repair.") stamp))
    verify_sqlite_database (join (dest_dir_of dest) (tmp_name (text "repair.") stamp))
    rename (join (dest_dir_of dest) (tmp_name (text "repair.") stamp)) dest
    checksum ← checksum_backup dest
    write (join (dest_dir_of dest) checksum_filename) checksum

  unfoldable pub inspect_backup : Fs → DbBackupConfig → BackupHealth
  inspect_backup fs config =
      let path = backup_file_path config in
      if exists fs path
      then elim ((verify_sqlite_database path >> checksum_backup path) fs).0 [
        | ok sum ↦ record { config = config; path = path; checksum = some sum; error = none }
        | err e ↦ record { config = config; path = path; checksum = none; error = some (shown e) }
      ]
      else record { config = config; path = path; checksum = none; error = some (text "missing") }

  -- The end of the loop's body, where no other backup can stand in.
  unfoldable pub report_broken : BackupHealth → Exec Store BackupIntegrityResult
  report_broken h s =
      let status = broken_status (exists s.fs h.path) in
      let message = given_or h.error (text "No healthy backup available for repair") in
      (
        ok (answer h status none none (some message)),
        (write_status h.config.id status (some message) s).1,
      )

  unfoldable pub report_healthy : BackupHealth → Exec Store BackupIntegrityResult
  report_healthy h s =
      let status = healthy_status h.config.last_integrity_status in
      (ok (answer h status h.checksum none none), (write_status h.config.id status none s).1)

  -- `copy_backup_atomically(..).and_then(|_| checksum_file(..))` and the match on it.
  unfoldable pub repair_backup : ℕ × FilePath → BackupHealth → Exec Store BackupIntegrityResult
  repair_backup source h =
      handle (on_disk (copy_backup_atomically source.1 h.path >> checksum_backup h.path))
        (λ checksum s. (
          ok (answer h (text "repaired") (some checksum) (some source.0) none),
          (retry_status_write 6 h.config.id (text "repaired") none none s).1,
        ))
        (λ e s. (
          ok (answer h (text "failed") none (some source.0) (some (shown e))),
          (write_status h.config.id (text "failed") (some (shown e)) s).1,
        ))

  abbrev pub deferred_message : Option Error → Text
  deferred_message last =
      text "pre-repair marker write failed; repair deferred to next integrity check: "
      ++ elim last [ none ↦ text "unknown error" | some e ↦ shown e ]

  unfoldable pub repair_if_marked :
      Bool × Option Error → Text → ℕ × FilePath → BackupHealth → Exec Store BackupIntegrityResult
  repair_if_marked (true, last) pre_status source h = repair_backup source h
  repair_if_marked (false, last) pre_status source h =
      pure (answer h pre_status none none (some (deferred_message last)))

  unfoldable pub mark_and_repair : ℕ × FilePath → BackupHealth → Exec Store BackupIntegrityResult
  mark_and_repair source h s =
      let pre_status = broken_status (exists s.fs h.path) in
      let marked = retry_status_write 3 h.config.id pre_status h.error none s in
      repair_if_marked marked.0 pre_status source h marked.1

  unfoldable pub check_broken :
      Option (ℕ × FilePath) → BackupHealth → Exec Store BackupIntegrityResult
  check_broken none h = report_broken h
  check_broken (some source) h =
      if source.0 == h.config.id then report_broken h else mark_and_repair source h

  unfoldable pub check_backup :
      Option (ℕ × FilePath) → BackupHealth → Exec Store BackupIntegrityResult
  check_backup source h = if is_healthy h then report_healthy h else check_broken source h

  unfoldable pub check_backups :
      Option (ℕ × FilePath) → List BackupHealth → Exec Store (List BackupIntegrityResult)
  check_backups source [] = pure []
  check_backups source (h ∷ hs) = do
    result ← check_backup source h
    rest ← check_backups source hs
    pure (result ∷ rest)

  unfoldable pub run_backup_integrity_check : Exec Store (List BackupIntegrityResult)
  run_backup_integrity_check = do
    configs ← on_database list_db_backup_configs
    health ← gets (λ s. map (inspect_backup s.fs) (select (λ c. c.enabled) configs))
    results ← check_backups (repair_source_of health) health
    ignore (on_database mark_db_backup_settings_integrity_run)
    pure results
