-- ===== src/SyncQueue/Process.antt =====
-- core/sync_queue.rs: process_item.
pub mod Outcome
use bitprotector.Base.{
  ℕ, Bool, true, false, not, ◌&&◌, none, some, if◌then◌else◌, Text, text_eq, Error, Result, ok, err,
  Exec, pure, raise, gets, ignore, ◌>>=◌, ◌>>◌, integrity_check_failed,
}
use bitprotector.Fs.{Fs, exists, join}
use bitprotector.Checksum.{checksum_file, streaming}
use bitprotector.Checksum.Hasher.{Blake3}
use bitprotector.Db.Rows.{
  DrivePair, TrackedFile, Action, mirror, restore_master, restore_mirror, verify,
  user_action_required, adopt_mirror, action_eq, QueueStatus, in_progress, completed, failed_with,
  SyncQueueItem, sync_completed, sync_failed, file_mirrored,
}
use bitprotector.Db.World.{World, in_fs, log_event}
use bitprotector.Db.Files.{get_tracked_file, update_tracked_file_mirror_status}
use bitprotector.Db.Queue.{update_sync_queue_status, is_mirror_action}
use bitprotector.Drive.Pair.{standby_path, path_is_available, is_quiescing}
use bitprotector.Drive.Ops.{load_operational_pair, maybe_finalize_rebuild_for_action}
use bitprotector.Mirror.{mirror_file, restore_from_mirror, restore_mirror_from_master}
use bitprotector.Integrity.{check_file_integrity, is_intact}

-- `.map(|_| ())`, with the error as the value that the code goes on to match.
abbrev pub outcome : {A : Type 0} → Result A → Result (Unit {0})
outcome (ok a) = ok tt
outcome (err e) = err e

-- The result of a call that is not followed by `?`.
abbrev pub caught : {A : Type 0} → Exec World A → Exec World (Result (Unit {0}))
caught m w = let (r, w') = m w in (ok (outcome r), w')

-- matches!(action, "mirror" | "adopt_mirror" | "restore_master" | "restore_mirror")
abbrev pub copies : Action → Bool
copies mirror = true
copies adopt_mirror = true
copies restore_master = true
copies restore_mirror = true
copies verify = false
copies user_action_required = false

-- What follows the completion of an action.
unfoldable pub note_completed : DrivePair → TrackedFile → Action → Exec World (Unit {0})
note_completed pair file action = do
  if copies action
      then (do
        update_tracked_file_mirror_status file.id true
        ignore (maybe_finalize_rebuild_for_action pair.id action))
      else pure tt
  ignore (log_event sync_completed (some file.id))
  if is_mirror_action action then ignore (log_event file_mirrored (some file.id)) else pure tt

-- `match result`
unfoldable pub finish_item :
    DrivePair → TrackedFile → SyncQueueItem → Result (Unit {0}) → Exec World (Unit {0})
finish_item pair file item (ok u) = do
  update_sync_queue_status item.id completed none
  note_completed pair file item.action
finish_item pair file item (err e) = do
  update_sync_queue_status item.id QueueStatus.failed (some (failed_with e))
  ignore (log_event sync_failed (some file.id))

module _ (b3 : Blake3) where
  -- The branch for `adopt_mirror`: its failures leave process_item at once.
  unfoldable pub adopt_mirror_step : DrivePair → TrackedFile → Exec Fs (Unit {0})
  adopt_mirror_step pair file = do
    found ← gets (λ fs.
        path_is_available fs (standby_path pair)
        && exists fs (join (standby_path pair) file.relative_path))
    if not found then (do mirror_file b3 pair file.relative_path; pure tt) else do
      sum ← checksum_file b3 (join (standby_path pair) file.relative_path) streaming
      if text_eq sum file.checksum
          then pure tt
          else do mirror_file b3 pair file.relative_path; pure tt

  -- The branch for `verify`: its failures leave process_item at once.
  unfoldable pub verify_step : DrivePair → TrackedFile → Exec Fs (Unit {0})
  verify_step pair file = do
    result ← check_file_integrity b3 pair file streaming streaming
    if is_intact result.status then pure tt else raise integrity_check_failed

  -- `let result = match item.action ...`; an item for the user does not come this far.
  unfoldable pub run_action : DrivePair → TrackedFile → Action → Exec World (Result (Unit {0}))
  run_action pair file mirror = caught (in_fs (mirror_file b3 pair file.relative_path))
  run_action pair file adopt_mirror = do in_fs (adopt_mirror_step pair file); pure (ok tt)
  run_action pair file restore_master =
      caught (in_fs (restore_from_mirror b3 pair file.relative_path file.checksum))
  run_action pair file restore_mirror =
      caught (in_fs (restore_mirror_from_master b3 pair file.relative_path file.checksum))
  run_action pair file verify = do in_fs (verify_step pair file); pure (ok tt)
  run_action pair file user_action_required = pure (ok tt)

  unfoldable pub process_item : SyncQueueItem → Exec World (Unit {0})
  process_item item = do
    file ← get_tracked_file item.tracked_file_id
    pair ← load_operational_pair file.drive_pair_id
    if is_quiescing pair
        then pure tt
        else if action_eq item.action user_action_required
        then pure tt
        else do
          update_sync_queue_status item.id in_progress none
          result ← run_action pair file item.action
          finish_item pair file item result
