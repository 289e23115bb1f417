-- ===== src/Db/Backups.antt =====
-- db/repository.rs: the statements on db_backup_config and db_backup_settings, which have a state
-- of their own, as no other part of the program reads them.
use bitprotector.Fs.{FilePath}
use bitprotector.Db.Pairs.{given_or}
use bitprotector.Base.Table.{delete_where, find, update_where}
use bitprotector.Base.{
  Bool, Exec, List, Option, Text, [], gets, if◌then◌else◌, ltb, modify, none, or_raise,
  row_not_found, some, ℕ, ◌++◌, ◌+◌, ◌==◌, ◌>>=◌, ◌>>◌, ◌∷◌,
}

pub record DbBackupConfig : Type 0 where
  pub id : ℕ
  pub backup_path : FilePath
  pub drive_label : Option Text
  pub priority : ℕ
  pub enabled : Bool
  pub last_backup : Option ℕ
  pub last_integrity_check : Option ℕ
  pub last_integrity_status : Option Text
  pub last_error : Option Text

pub record DbBackupSettings : Type 0 where
  pub backup_enabled : Bool
  pub backup_interval_seconds : ℕ
  pub integrity_enabled : Bool
  pub integrity_interval_seconds : ℕ
  pub last_backup_run : Option ℕ
  pub last_integrity_run : Option ℕ

pub record Backups : Type 0 where
  pub configs : List DbBackupConfig
  pub next_config_id : ℕ
  pub backup_settings : DbBackupSettings
  pub time : ℕ

abbrev pub config_is : ℕ → DbBackupConfig → Bool
config_is id c = c.id == id

-- COALESCE(MAX(priority) + 1, 0)
unfoldable pub next_priority : List DbBackupConfig → ℕ
next_priority [] = 0
next_priority (c ∷ cs) =
    let rest = next_priority cs in if ltb c.priority rest then rest else c.priority + 1

unfoldable pub get_db_backup_config : ℕ → Exec Backups DbBackupConfig
get_db_backup_config id = do
  found ← gets (λ b. find (config_is id) b.configs)
  or_raise found row_not_found

unfoldable pub create_db_backup_config : FilePath → Option Text → Bool → Exec Backups DbBackupConfig
create_db_backup_config path label enabled = do
  id ← gets (λ b. b.next_config_id)
  modify (λ b. record b {
    configs =
        b.configs
        ++ record {
          id = id;
          backup_path = path;
          drive_label = label;
          priority = next_priority b.configs;
          enabled = enabled;
          last_backup = none;
          last_integrity_check = none;
          last_integrity_status = none;
          last_error = none;
        }
          ∷ [];
    next_config_id = id + 1;
  })
  get_db_backup_config id

-- ORDER BY priority, id, where the rows come by their ids.
unfoldable pub insert_by_priority : DbBackupConfig → List DbBackupConfig → List DbBackupConfig
insert_by_priority c [] = c ∷ []
insert_by_priority c (d ∷ ds) =
    let rest = insert_by_priority c ds in if ltb d.priority c.priority then d ∷ rest else c ∷ d ∷ ds

unfoldable pub sort_by_priority : List DbBackupConfig → List DbBackupConfig
sort_by_priority [] = []
sort_by_priority (c ∷ cs) = insert_by_priority c (sort_by_priority cs)

unfoldable pub list_db_backup_configs : Exec Backups (List DbBackupConfig)
list_db_backup_configs = gets (λ b. sort_by_priority b.configs)

abbrev pub update_configs : ℕ → (DbBackupConfig → DbBackupConfig) → Exec Backups (Unit {0})
update_configs id f = modify (λ b. record b { configs = update_where (config_is id) f b.configs })

unfoldable pub update_db_backup_config :
    ℕ → Option FilePath → Option (Option Text) → Option Bool → Exec Backups DbBackupConfig
update_db_backup_config id path label enabled = do
  update_configs id (λ c. record c {
    backup_path = given_or path c.backup_path;
    drive_label = given_or label c.drive_label;
    enabled = given_or enabled c.enabled;
  })
  get_db_backup_config id

unfoldable pub delete_db_backup_config : ℕ → Exec Backups (Unit {0})
delete_db_backup_config id =
    modify (λ b. record b { configs = delete_where (config_is id) b.configs })

unfoldable pub update_db_backup_last_backup : ℕ → Exec Backups (Unit {0})
update_db_backup_last_backup id b =
    update_configs id (λ c. record c { last_backup = some b.time; last_error = none }) b

unfoldable pub update_db_backup_error : ℕ → Option Text → Exec Backups (Unit {0})
update_db_backup_error id error = update_configs id (λ c. record c { last_error = error })

unfoldable pub update_db_backup_integrity_status : ℕ → Text → Option Text → Exec Backups (Unit {0})
update_db_backup_integrity_status id status error b =
    update_configs id
      (λ c. record c {
        last_integrity_check = some b.time;
        last_integrity_status = some status;
        last_error = error;
      })
      b

unfoldable pub get_db_backup_settings : Exec Backups DbBackupSettings
get_db_backup_settings = gets (λ b. b.backup_settings)

unfoldable pub update_db_backup_settings :
    Option Bool → Option ℕ → Option Bool → Option ℕ → Exec Backups DbBackupSettings
update_db_backup_settings backup backup_interval integrity integrity_interval = do
  modify (λ b.
      let s = b.backup_settings in
      record b {
        backup_settings = record s {
          backup_enabled = given_or backup s.backup_enabled;
          backup_interval_seconds = given_or backup_interval s.backup_interval_seconds;
          integrity_enabled = given_or integrity s.integrity_enabled;
          integrity_interval_seconds = given_or integrity_interval s.integrity_interval_seconds;
        };
      })
  get_db_backup_settings

unfoldable pub mark_db_backup_settings_backup_run : Exec Backups (Unit {0})
mark_db_backup_settings_backup_run = modify (λ b.
    let s = b.backup_settings in
    record b { backup_settings = record s { last_backup_run = some b.time } })

unfoldable pub mark_db_backup_settings_integrity_run : Exec Backups (Unit {0})
mark_db_backup_settings_integrity_run = modify (λ b.
    let s = b.backup_settings in
    record b { backup_settings = record s { last_integrity_run = some b.time } })
