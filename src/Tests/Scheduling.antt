-- ===== src/Tests/Scheduling.antt =====
-- The theorem on the reload of the scheduler at two schedules, one of them changed.
use bitprotector.Scheduler.Reload.{or_else, reload_lem, running, scheduled, when_wanted}
use bitprotector.Scheduler.{Scheduler, reload}
use bitprotector.Db.Schedules.{ScheduleConfig, sync}
use bitprotector.Db.Backups.{DbBackupSettings}
use bitprotector.Base.{[], false, none, some, true, ◌∷◌, ◌≡◌}

abbrev hourly : ScheduleConfig
hourly = record {
  id = 1;
  task_type = sync;
  cron_expr = none;
  interval_seconds = some 3600;
  max_duration_seconds = none;
  enabled = true;
  last_run = none;
  next_run = none;
}

abbrev daily : ScheduleConfig
daily = record hourly { interval_seconds = some 86400 }

abbrev no_backups : DbBackupSettings
no_backups = record {
  backup_enabled = false;
  backup_interval_seconds = 86400;
  integrity_enabled = false;
  integrity_interval_seconds = 86400;
  last_backup_run = none;
  last_integrity_run = none;
}

abbrev started : Scheduler
started = record {
  threads = hourly ∷ [];
  stopped_threads = [];
  backup_threads = [];
  has_db_path = true;
}

reload_lem_example :
    running 1 (reload (daily ∷ []) no_backups started)
    ≡ when_wanted
        (scheduled 1 (daily ∷ []))
        (or_else (running 1 started) (scheduled 1 (daily ∷ [])))
reload_lem_example = reload_lem 1 (daily ∷ []) no_backups started
