-- ===== src/Scheduler/Defs.antt =====
-- core/scheduler.rs: which threads run, and how long they wait.
use bitprotector.Db.Schedules.{ScheduleConfig, schedule_is}
use bitprotector.Db.Pairs.{given_or}
use bitprotector.Db.Backups.{DbBackupSettings}
use bitprotector.Base.Table.{delete_where, find, select}
use bitprotector.Base.{
  Bool, List, Option, Text, [], false, if◌then◌else◌, is_some, leb, none, not, some, true, ℕ, ◌&&◌,
  ◌*◌, ◌++◌, ◌+◌, ◌/◌, ◌∷◌,
}

-- The key of a backup thread, with whether it only checks.
pub data BackupTask : Type 0 where
  database_backup database_backup_integrity : BackupTask

-- The row of the schedule that a thread was started with, which it keeps, and the threads whose
-- stop flag is set; of the backup threads the key and the interval.
pub record Scheduler : Type 0 where
  pub threads : List ScheduleConfig
  pub stopped_threads : List ScheduleConfig
  pub backup_threads : List (BackupTask × ℕ)
  pub has_db_path : Bool

-- configs.iter().any(|c| c.id == id && c.enabled)
abbrev pub enabled_as : ℕ → ScheduleConfig → Bool
enabled_as id c = schedule_is id c && c.enabled

unfoldable pub is_wanted : List ScheduleConfig → ScheduleConfig → Bool
is_wanted configs t = is_some (find (enabled_as t.id) configs)

-- The threads of schedules that have been removed or disabled.
unfoldable pub stop_unwanted : List ScheduleConfig → Scheduler → Scheduler
stop_unwanted configs s = record s {
  threads = delete_where (λ t. not (is_wanted configs t)) s.threads;
  stopped_threads = s.stopped_threads ++ select (λ t. not (is_wanted configs t)) s.threads;
}

-- start_thread: `threads.insert` puts the new thread in the place of one under the same key.
unfoldable pub start_thread : ScheduleConfig → List ScheduleConfig → List ScheduleConfig
start_thread c threads = c ∷ delete_where (schedule_is c.id) threads

-- `for config in configs.into_iter().filter(|c| c.enabled)`
unfoldable pub start_missing : List ScheduleConfig → List ScheduleConfig → List ScheduleConfig
start_missing [] threads = threads
start_missing (c ∷ cs) threads =
    if c.enabled && not (is_some (find (schedule_is c.id) threads))
    then start_missing cs (start_thread c threads)
    else start_missing cs threads

abbrev pub backup_thread : Bool → BackupTask → ℕ → List (BackupTask × ℕ)
backup_thread true task interval = (task, interval) ∷ []
backup_thread false task interval = []

unfoldable pub reload_database_backup_threads : DbBackupSettings → Scheduler → Scheduler
reload_database_backup_threads settings s = record s {
  backup_threads =
      if s.has_db_path
      then backup_thread settings.backup_enabled database_backup settings.backup_interval_seconds
        ++ backup_thread settings.integrity_enabled database_backup_integrity
            settings.integrity_interval_seconds
      else [];
}

unfoldable pub reload : List ScheduleConfig → DbBackupSettings → Scheduler → Scheduler
reload configs settings s =
    let stopped = stop_unwanted configs s in
    reload_database_backup_threads settings
      (record stopped { threads = start_missing configs stopped.threads })

unfoldable pub stop_all : Scheduler → Scheduler
stop_all s = record s {
  threads = [];
  stopped_threads = s.stopped_threads ++ s.threads;
  backup_threads = [];
}

-- How long a thread sleeps before the next run: the cron crate's time to the next occurrence, where
-- it can read the expression.
unfoldable pub sleep_ms : (Text → Option ℕ) → ScheduleConfig → ℕ
sleep_ms next_cron_sleep_ms c = elim c.cron_expr [
  | some expr ↦ given_or (next_cron_sleep_ms expr) 3600000
  | none ↦ given_or c.interval_seconds 3600 * 1000
]

-- The checks of the stop flag, one each tenth of a second.
unfoldable pub sleep_steps : ℕ → ℕ
sleep_steps ms = if leb 1 (ms / 100) then ms / 100 else 1

unfoldable pub backup_steps : ℕ → ℕ
backup_steps interval = sleep_steps ((if leb 1 interval then interval else 1) * 1000)

unfoldable pub stop_by_of : ℕ → ScheduleConfig → Option ℕ
stop_by_of now c = elim c.max_duration_seconds [ none ↦ none | some s ↦ some (now + s) ]
