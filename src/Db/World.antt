-- ===== src/Db/World.antt =====
-- The state that the procedures read and write: the tables, the file system and the clock.
use bitprotector.Base.{ℕ, List, [], ◌∷◌, ◌++◌, Option, Exec, ok}
use bitprotector.Fs.{FilePath, Fs}
use bitprotector.Db.Rows.{
  DrivePair, TrackedFile, TrackedFolder, SyncQueueItem, SyncSettings, EventLogEntry, EventType,
}
use bitprotector.Db.RunRows.{IntegrityRun, IntegrityRunResult}

pub record World : Type 0 where
  pub pairs : List DrivePair
  pub files : List TrackedFile
  pub folders : List TrackedFolder
  pub queue : List SyncQueueItem
  -- The AUTOINCREMENT counter of sync_queue.
  pub next_item_id : ℕ
  pub settings : SyncSettings
  pub events : List EventLogEntry
  pub fs : Fs
  -- The virtual-path links, outside the drives: from the link to its target.
  pub links : FilePath → Option FilePath
  -- datetime('now') in seconds
  pub now : ℕ
  pub runs : List IntegrityRun
  pub run_results : List IntegrityRunResult
  -- The AUTOINCREMENT counters of drive_pairs, tracked_files, tracked_folders, integrity_runs and
  -- integrity_run_results.
  pub next_pair_id : ℕ
  pub next_file_id : ℕ
  pub next_folder_id : ℕ
  pub next_run_id : ℕ
  pub next_result_id : ℕ

abbrev pub in_fs : {A : Type 0} → Exec Fs A → Exec World A
in_fs m w = let (r, fs') = m w.fs in (r, record w { fs = fs' })

-- event_logger::log_event
unfoldable pub log_event : EventType → Option ℕ → Exec World (Unit {0})
log_event t f w =
    (ok tt, record w { events = w.events ++ record { event_type = t; tracked_file_id = f } ∷ [] })
