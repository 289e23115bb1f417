-- ===== src/Lib.antt =====
-- BitProtector keeps every tracked file on two drives, a primary (master) and a secondary
-- (mirror), checks both copies against a stored BLAKE3 checksum, restores a bad copy from a good
-- one, and works off a queue of such tasks. A pair of drives goes on with one of them when the
-- other is lost, and is rebuilt on a replacement. This library models the core of the program,
-- which is written in Rust, and proves what its parts promise each other.
--
-- Files, with the source that each models:
--   Base, Fs          lists, texts, results, tables; the calls of std::fs
--   Checksum          src/core/checksum.rs: hashing by chunks, copying, verified copying
--   Db                src/db/repository.rs: the rows and the SQL statements on drive_pairs,
--                     tracked_files, tracked_folders, sync_queue, integrity_runs,
--                     integrity_run_results, schedule_config, sync_settings (the processing
--                     lock) and the two tables of the database backups, and the triggers of
--                     src/db/schema.rs
--   Drive             src/core/drive.rs: roles, states, emergency failover, quiescing, failure,
--                     replacement and rebuild
--   VirtualPath       src/core/virtual_path.rs: virtual paths and the links that show them
--   Mirror            src/core/mirror.rs: mirror_file, restore_from_mirror,
--                     restore_mirror_from_master
--   Integrity         src/core/integrity.rs: check_file_integrity, attempt_recovery and its
--                     reconciliation with the queue
--   SyncQueue         src/core/sync_queue.rs: process_item, process_all_pending,
--                     resolve_queue_item and the creation of items
--   Changes           src/core/change_detection.rs: detect_change, scan_all_changes,
--                     scan_and_record_changes
--   Runs              src/core/integrity_runs.rs: run_sync, process_run, the stop check and the
--                     thread of start_run_async
--   Sidecar           src/core/sidecar.rs: read_b3_sidecar
--   Tracker           src/core/tracker.rs: track_file, track_folder, untrack_folder_cascade and
--                     the walks through a folder (Tracker.Scan)
--   Backup            src/db/backup.rs: the copies of the database (Backup.Write), their check, and
--                     the restore (Backup.Restore); a list of Booleans in the state says for each
--                     coming statement whether the database is busy then
--   Scheduler         src/core/scheduler.rs: the threads after a reload, their waits, run_task
--   Tests             concrete inputs at which the theorems apply
-- A definition has the name of the function, the type or the field that it models; a helper that
-- stands for a part of a function says so above it.
--
-- How the parts interact: SyncQueue.Process takes an item, asks Drive.Ops for the pair (which may
-- fail over first), carries the action out through Mirror or Integrity, which copy through
-- Checksum, and writes the outcome through Db; the end of an action may end a rebuild in
-- Drive.Ops, which regenerates the links through VirtualPath. Drive.Ops queues the work of a
-- rebuild through Db.Queue, and SyncQueue.Drain runs all pending work under the lock of
-- Db.Settings.
--
-- State: a World holds the tables as lists of rows, the processing settings, the event log (type
-- and file of each event), the file system of the drives, the links of the virtual paths and the
-- clock in seconds. A procedure is a function from the World to a result and the World after it,
-- which an error keeps as the procedure left it. An SQL statement is a search, a selection, an
-- update or a deletion of the rows that satisfy its condition. Columns that the schema restricts
-- to a few words are data types, with the words in Drive.Names. Texts, paths and bytes are lists
-- of codes, and ids, counts and times are natural numbers, as the code only counts up and compares
-- them.
--
-- The file system maps a path to a file with its mode and bytes, or to a directory; what the
-- system permits (opening, writing, room on the disk) and where a read of a file fails is given by
-- functions in it, so that every error of a call of std::fs can occur. A directory can be opened,
-- and its reads fail. The BLAKE3 crate is the parameter Blake3: a hasher whose
-- updates add up and whose result is the hash of all its input. Whether a process is alive is a
-- parameter too, as are the decoding of UTF-8, whether a pool of so many threads can be built, and
-- the entries that the system lists for a directory.
--
-- Loops: reading and copying run by chunks of 65536 bytes on fuel that is one more than the length
-- of the content, which the theorems on them show to be enough. The drain of the queue runs on
-- fuel, with the result `none` while it still runs. The worker threads of a pass are run under a
-- schedule, a list of worker places and waiting times that the environment picks, round by round;
-- every worker that the schedule leaves over then runs to its end. The scan for changes and the
-- integrity run take a unit of fuel for each page, and start with one more than the number of
-- tracked files, which the theorems on them show to be enough. What happens beside an integrity
-- run, the time that passes and a request to stop, comes from a list with an entry for each page;
-- that others change the tables or the files meanwhile is not modelled.
-- The walks through a folder get their fuel from the caller, a unit for each directory.
--
-- The page of the results of a run and of the queue that a request names is reckoned on an i64 that
-- wraps around; the other pages are those of loops over the rows, which stay far below that.
--
-- Not modelled: failures of SQLite itself, but for the statements of Backup; the texts of messages
-- and log entries; symbolic links inside a drive and paths that name one file in two ways; progress
-- publishing and its event bus; the hint posix_fadvise; the columns created_at and updated_at; the
-- file system watcher. The loops of the scheduler's threads, the HTTP API, the command line and the
-- frontend are outside the library.
pub mod Base
pub mod Fs
pub mod Checksum
pub mod Db
pub mod Drive
pub mod VirtualPath
pub mod Mirror
pub mod Integrity
pub mod SyncQueue
pub mod Changes
pub mod Runs
pub mod Sidecar
pub mod Tracker
pub mod Backup
pub mod Scheduler
mod Tests
