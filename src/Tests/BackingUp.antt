-- ===== src/Tests/BackingUp.antt =====
-- The theorems on the check of the database's backups, on two destinations of which one is lost.
use bitprotector.Base.{
  database_busy, err, false, ◌≡◌, ◌⊎◌, Option, Text, [], if◌then◌else◌, none, refl, some, text,
  text_eq, true, ℕ, ◌∷◌,
}
use bitprotector.Backup.Check.{
  inspected, is_held, AnswersAll, KeepsDisk, all_busy, check_backup-KeepsDisk, may_repair,
  run_backup_integrity_check-AnswersAll,
}
use bitprotector.Backup.{
  backup_file_path, is_healthy, BackupHealth, Store, check_backup, inspect_backup,
  run_backup_integrity_check,
}
use bitprotector.Fs.{file, FilePath}
use bitprotector.Tests.Data.{small_fs, toy}
use bitprotector.Db.Backups.{DbBackupConfig}

abbrev backup_at : ℕ → Text → DbBackupConfig
backup_at id path = record {
  id = id;
  backup_path = path;
  drive_label = none;
  priority = id;
  enabled = true;
  last_backup = none;
  last_integrity_check = none;
  last_integrity_status = none;
  last_error = none;
}

abbrev two_backups : Store
two_backups = record {
  fs = record small_fs {
    node = λ p.
        if text_eq p (text "/m/bitprotector.db") then some (file 420 (7 ∷ [])) else small_fs.node p;
  };
  rows = record {
    configs = backup_at 1 (text "/m") ∷ backup_at 2 (text "/s") ∷ [];
    next_config_id = 3;
    backup_settings = record {
      backup_enabled = true;
      backup_interval_seconds = 60;
      integrity_enabled = true;
      integrity_interval_seconds = 60;
      last_backup_run = none;
      last_integrity_run = none;
    };
    time = 9;
  };
  busy = true ∷ true ∷ true ∷ [];
}

abbrev lost_backup : BackupHealth
lost_backup =
    inspect_backup toy (λ b. true) (λ e. text "e") (text "0") two_backups.fs
      (backup_at 2 (text "/s"))

abbrev healthy_source : Option (ℕ × FilePath)
healthy_source = some (1, text "/m/bitprotector.db")

-- The list can be read, and the database is busy three times from then on.
abbrev listed_backups : Store
listed_backups = record two_backups { busy = false ∷ true ∷ true ∷ true ∷ [] }

run_backup_integrity_check-AnswersAll_example :
    ((is_held listed_backups.busy ≡ true)
      × ((run_backup_integrity_check toy (λ b. true) (λ e. text "e") (text "0") listed_backups).0
          ≡ err database_busy)
      × ((run_backup_integrity_check toy (λ b. true) (λ e. text "e") (text "0") listed_backups).1.fs
          ≡ listed_backups.fs)
      × ((run_backup_integrity_check toy
            (λ b. true)
            (λ e. text "e")
            (text "0")
            listed_backups).1.rows
          ≡ listed_backups.rows))
    ⊎ ((is_held listed_backups.busy ≡ false)
        × AnswersAll
            (inspected toy (λ b. true) (λ e. text "e") (text "0") listed_backups)
            (run_backup_integrity_check toy (λ b. true) (λ e. text "e") (text "0") listed_backups))
run_backup_integrity_check-AnswersAll_example =
    run_backup_integrity_check-AnswersAll toy (λ b. true) (λ e. text "e") (text "0") listed_backups

check_backup-KeepsDisk_example :
    KeepsDisk two_backups.fs (
      check_backup toy
        (λ b. true)
        (λ e. text "e")
        (text "0")
        healthy_source
        lost_backup
        two_backups)
unfolding may_repair all_busy is_healthy inspect_backup text_eq backup_file_path
check_backup-KeepsDisk_example =
    check_backup-KeepsDisk toy (λ b. true) (λ e. text "e") (text "0") healthy_source lost_backup
      two_backups refl
