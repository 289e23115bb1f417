-- ===== src/SyncQueue/Process/Outcome.antt =====
-- The status in which process_item leaves its item.
use bitprotector.Fs.{read_to_end, FilePath, Fs, copy, exists, join, open_file}
use bitprotector.SyncQueue.Process.{
  adopt_mirror_step, outcome, verify_step, process_item, run_action, finish_item, note_completed,
}
use bitprotector.Mirror.{mirror_file, restore_from_mirror, restore_mirror_from_master}
use bitprotector.Integrity.{IntegrityCheckResult, check_file_integrity, is_intact}
use bitprotector.Drive.Pair.{path_is_available, standby_path, is_quiescing}
use bitprotector.Checksum.{checksum_file, streaming}
use bitprotector.Base.{
  Text, if◌then◌else◌, text_eq, ◌&&◌, ℕ, ◌≡◌, refl, ap, ◌∙◌, false, Option, none, some, List, arith,
  Result, ok, err, continue,
}
use bitprotector.Base.Table.{find}
use bitprotector.Base.Table.Laws.{find-update_where, option_map}
use bitprotector.Checksum.Hasher.{Blake3}
use bitprotector.Db.Rows.{
  DrivePair, TrackedFile, Action, mirror, adopt_mirror, restore_master, restore_mirror, verify,
  user_action_required, action_eq, QueueStatus, in_progress, completed, failed_with, SyncQueueItem,
  Message,
}
use bitprotector.Db.World.{World, log_event}
use bitprotector.Db.Files.{file_is, get_tracked_file, update_tracked_file_mirror_status}
use bitprotector.Db.Pairs.{pair_is}
use bitprotector.Db.Queue.{item_is, update_sync_queue_status, stamp}
use bitprotector.Drive.Ops.{must_fail_over, maybe_emergency_failover, load_operational_pair}
use bitprotector.Drive.Runtime.{get_drive_pair_found, queue-maybe_finalize}

-- The world in which the item has been started.
abbrev pub started : ℕ → World → World
started id w = (update_sync_queue_status id in_progress none w).1

abbrev pub status_of : ℕ → World → Option QueueStatus
status_of id w = option_map (λ (i : SyncQueueItem). i.status) (find (item_is id) w.queue)

-- What the action's outcome means for the item: completed, failed, or, where the action left
-- process_item at once, still in progress.
abbrev pub final_status : Result (Result (Unit {0})) → QueueStatus
final_status (ok (ok u)) = completed
final_status (ok (err e)) = QueueStatus.failed
final_status (err e) = in_progress

status-update :
    (id : ℕ) (s : QueueStatus) (m : Option Message) (w : World) (i : SyncQueueItem)
    → find (item_is id) w.queue ≡ some i
    → status_of id (update_sync_queue_status id s m w).1 ≡ some s
unfolding update_sync_queue_status
status-update id s m w i h =
    rw
      (
        find-update_where (item_is id)
            (λ i. record i { status = s; error_message = m; completed_at = stamp s w.now })
            (λ x e. e) w.queue,
        h,
      )
      refl

found-update :
    (id : ℕ) (s : QueueStatus) (m : Option Message) (w : World) (i : SyncQueueItem)
    → find (item_is id) w.queue ≡ some i
    → find (item_is id) (update_sync_queue_status id s m w).1.queue
      ≡ some (record i { status = s; error_message = m; completed_at = stamp s w.now })
unfolding update_sync_queue_status
found-update id s m w i h =
    rw
      (
        find-update_where (item_is id)
            (λ i. record i { status = s; error_message = m; completed_at = stamp s w.now })
            (λ x e. e) w.queue,
        h,
      )
      refl

module _ (b3 : Blake3) (pair : DrivePair) (file : TrackedFile) where
  queue-run_action : (a : Action) (w : World) → (run_action b3 pair file a w).1.queue ≡ w.queue
  unfolding run_action
  queue-run_action mirror w = refl
  queue-run_action adopt_mirror w = ground arith
  queue-run_action restore_master w = refl
  queue-run_action restore_mirror w = refl
  queue-run_action verify w = ground arith
  queue-run_action user_action_required w = refl

queue-note_completed :
    (pair : DrivePair) (file : TrackedFile) (a : Action) (w : World)
    → (note_completed pair file a w).1.queue ≡ w.queue
unfolding note_completed log_event update_tracked_file_mirror_status
queue-note_completed pair file mirror w = queue-maybe_finalize pair.id mirror _
queue-note_completed pair file adopt_mirror w = queue-maybe_finalize pair.id adopt_mirror _
queue-note_completed pair file restore_master w = queue-maybe_finalize pair.id restore_master _
queue-note_completed pair file restore_mirror w = queue-maybe_finalize pair.id restore_mirror _
queue-note_completed pair file verify w = refl
queue-note_completed pair file user_action_required w = refl

after_action :
    (pair : DrivePair) (file : TrackedFile) (item i : SyncQueueItem)
    (r : Result (Result (Unit {0})) × World)
    → find (item_is item.id) r.1.queue ≡ some i
    → i.status ≡ in_progress
    → status_of item.id (continue r.0 (finish_item pair file item) r.1).1 ≡ some (final_status r.0)
unfolding finish_item log_event update_sync_queue_status note_completed
after_action pair file item i (ok (ok u), w) h s =
    ap
      (λ (q : List SyncQueueItem).
        option_map (λ (x : SyncQueueItem). x.status) (find (item_is item.id) q))
      (queue-note_completed pair file item.action
        (update_sync_queue_status item.id completed none w).1)
    ∙ status-update item.id completed none w i h
after_action pair file item i (ok (err e), w) h s =
    status-update item.id QueueStatus.failed (some (failed_with e)) w i h
after_action pair file item i (err e, w) h s = rw (h, s) refl

-- A failure that the code goes on to record, and one that leaves the procedure at once.
abbrev pub recorded : {A : Type 0} → Result A → QueueStatus
recorded (ok a) = completed
recorded (err e) = QueueStatus.failed

abbrev pub left_behind : {A : Type 0} → Result A → QueueStatus
left_behind (ok a) = completed
left_behind (err e) = in_progress

abbrev pub found_intact : Result IntegrityCheckResult → QueueStatus
found_intact (ok r) = if is_intact r.status then completed else in_progress
found_intact (err e) = in_progress

-- The copy on the standby drive has the stored checksum, or is copied anew.
abbrev pub adopted : Text → Result Text → Result Text → QueueStatus
adopted checksum (ok sum) copy = if text_eq sum checksum then completed else left_behind copy
adopted checksum (err e) copy = in_progress

module _ (b3 : Blake3) (pair : DrivePair) (file : TrackedFile) where
  -- The status that an item is left in, by its action and what that does on the disk. The errors of
  -- `adopt_mirror` and `verify` leave the procedure at once.
  abbrev pub status_after : Action → Fs → QueueStatus
  status_after mirror fs = recorded (mirror_file b3 pair file.relative_path fs).0
  status_after adopt_mirror fs =
      if path_is_available fs (standby_path pair)
        && exists fs (join (standby_path pair) file.relative_path)
      then adopted file.checksum
          (checksum_file b3 (join (standby_path pair) file.relative_path) streaming fs).0
          (mirror_file b3 pair file.relative_path fs).0
      else left_behind (mirror_file b3 pair file.relative_path fs).0
  status_after restore_master fs =
      recorded (restore_from_mirror b3 pair file.relative_path file.checksum fs).0
  status_after restore_mirror fs =
      recorded (restore_mirror_from_master b3 pair file.relative_path file.checksum fs).0
  status_after verify fs = found_intact (check_file_integrity b3 pair file streaming streaming fs).0
  status_after user_action_required fs = completed

  checksum_file-fs : (p : FilePath) (fs : Fs) → (checksum_file b3 p streaming fs).1 ≡ fs
  unfolding checksum_file open_file read_to_end
  checksum_file-fs p fs = ground arith

  caught_status : {A : Type 0} (r : Result A) → final_status (ok (outcome r)) ≡ recorded r
  caught_status (ok a) = refl
  caught_status (err e) = refl

  adopt_status :
      (fs : Fs)
      → (w : World)
      → final_status (run_action b3 pair file adopt_mirror (record w { fs = fs })).0
        ≡ status_after adopt_mirror fs
  unfolding run_action adopt_mirror_step
  adopt_status fs w =
      ground (arith, checksum_file-fs (join (standby_path pair) file.relative_path) fs)

  verify_status :
      (w : World) → final_status (run_action b3 pair file verify w).0 ≡ status_after verify w.fs
  unfolding run_action verify_step
  verify_status w = ground arith

  run_action_status :
      (a : Action) (w : World)
      → action_eq a user_action_required ≡ false
      → final_status (run_action b3 pair file a w).0 ≡ status_after a w.fs
  unfolding run_action
  run_action_status mirror w h = caught_status (mirror_file b3 pair file.relative_path w.fs).0
  run_action_status adopt_mirror w h = adopt_status w.fs w
  run_action_status restore_master w h =
      caught_status (restore_from_mirror b3 pair file.relative_path file.checksum w.fs).0
  run_action_status restore_mirror w h =
      caught_status (restore_mirror_from_master b3 pair file.relative_path file.checksum w.fs).0
  run_action_status verify w h = verify_status w
  run_action_status user_action_required w h = cc

-- For an item that the queue holds, of a file in a pair that is neither quiescing nor about to be
-- failed over, and that does not wait for the user: the item is left completed if its action
-- succeeds, failed if the action reports a failure, and in progress if the action's branch leaves
-- the procedure with an error of its own, as those of `adopt_mirror` and `verify` do, also where
-- `verify` finds the file not intact.
pub process_item_status :
    (b3 : Blake3) (item i : SyncQueueItem) (file : TrackedFile) (pair : DrivePair) (w : World)
    → find (item_is item.id) w.queue ≡ some i
    → find (file_is item.tracked_file_id) w.files ≡ some file
    → find (pair_is file.drive_pair_id) w.pairs ≡ some pair
    → must_fail_over w pair ≡ false
    → is_quiescing pair ≡ false
    → action_eq item.action user_action_required ≡ false
    → status_of item.id (process_item b3 item w).1
      ≡ some (status_after b3 pair file item.action w.fs)
unfolding process_item get_tracked_file load_operational_pair maybe_emergency_failover
    update_sync_queue_status
process_item_status b3 item i file pair w hi hf hp spared awake auto =
    rw (hf, get_drive_pair_found file.drive_pair_id w pair hp, spared, awake, auto)
      (after_action pair file item
          (record i { status = in_progress; error_message = none; completed_at = none })
          (run_action b3 pair file item.action (started item.id w))
          (ap (find (item_is item.id))
              (queue-run_action b3 pair file item.action (started item.id w))
            ∙ found-update item.id in_progress none w i hi)
          refl
        ∙ ap some (run_action_status b3 pair file item.action (started item.id w) auto))
