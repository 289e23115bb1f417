-- ===== src/Drive/Runtime.antt =====
-- Reading and updating the row of one pair, and what the other calls of the drive operations
-- leave alone.
use bitprotector.Base.{
  ℕ, ◌≡◌, refl, true, false, Bool, Option, none, some, arith, Result, ok, err, continue, pure,
  ignore, Exec, ◌>>◌, ◌&&◌, ◌∙◌, row_not_found, List, [], ◌∷◌,
}
use bitprotector.Base.Table.{find, update_where}
use bitprotector.Base.Table.Laws.{find-update_where}
use bitprotector.Fs.{FilePath}
use bitprotector.Db.Rows.{
  DrivePair, DriveRole, primary, secondary, state_eq, drive_rebuild_completed, DriveState, active,
  EventType, Message, Action, TrackedFile,
}
use bitprotector.Db.World.{World, log_event}
use bitprotector.Db.Pairs.{pair_is, get_drive_pair, set_runtime, update_drive_pair_runtime}
use bitprotector.Db.Files.{
  mark_drive_pair_unmirrored, list_tracked_files_of_pair, update_tracked_file_mirror_status,
}
use bitprotector.Db.Queue.{
  fail_pending_sync_queue_for_drive_pair, count_sync_queue_items_for_drive_pair_action,
  create_dedup_with_created, create_dedup_with_reason, create_sync_queue_item_with_reason_and_error,
}
use bitprotector.Drive.Ops.{
  queue_rebuild, mark_all_mirrored, mirrored_again, finalize_rebuild,
  maybe_finalize_rebuild_for_action, on_primary, on_secondary, refresh_pair_virtual_paths,
  only_pair,
}
use bitprotector.VirtualPath.Frame.{refresh_all_virtual_paths-SameTables, SameTables}

pub get_drive_pair_found :
    (id : ℕ) (w : World) (pair : DrivePair)
    → find (pair_is id) w.pairs ≡ some pair
    → get_drive_pair id w ≡ (ok pair, w)
unfolding get_drive_pair
get_drive_pair_found id w pair h = rw h refl

pub get_drive_pair_missing :
    (id : ℕ) (w : World)
    → find (pair_is id) w.pairs ≡ none
    → get_drive_pair id w ≡ (err row_not_found, w)
unfolding get_drive_pair
get_drive_pair_missing id w h = rw h refl

-- The world in which the rows of a pair have been rewritten.
abbrev pub with_pair : ℕ → (DrivePair → DrivePair) → World → World
with_pair id f w = record w { pairs = update_where (pair_is id) f w.pairs }

pub find-with_pair :
    (id : ℕ) (w : World) (pair : DrivePair) (f : DrivePair → DrivePair)
    → ((p : DrivePair) → (f p).id ≡ p.id)
    → find (pair_is id) w.pairs ≡ some pair
    → find (pair_is id) (with_pair id f w).pairs ≡ some (f pair)
find-with_pair id w pair f same h =
    rw (find-update_where (pair_is id) f (λ p e. rw (same p) e) w.pairs, h) refl

pub update_drive_pair_runtime_lem :
    (id : ℕ) (pp sp : Option FilePath) (ps ss : Option DriveState) (role : Option DriveRole)
    (w : World) (pair : DrivePair)
    → find (pair_is id) w.pairs ≡ some pair
    → update_drive_pair_runtime id pp sp ps ss role w
      ≡ (ok (set_runtime pp sp ps ss role pair), with_pair id (set_runtime pp sp ps ss role) w)
unfolding update_drive_pair_runtime
update_drive_pair_runtime_lem id pp sp ps ss role w pair h =
    get_drive_pair_found id (with_pair id (set_runtime pp sp ps ss role) w)
      (set_runtime pp sp ps ss role pair)
      (find-with_pair id w pair (set_runtime pp sp ps ss role) (λ p. refl) h)

pub pairs-mark_unmirrored :
    (id : ℕ) (w : World) → (mark_drive_pair_unmirrored id w).1.pairs ≡ w.pairs
unfolding mark_drive_pair_unmirrored
pairs-mark_unmirrored id w = refl

pub pairs-fail_pending :
    (id : ℕ) (m : Message) (w : World)
    → (fail_pending_sync_queue_for_drive_pair id m w).1.pairs ≡ w.pairs
unfolding fail_pending_sync_queue_for_drive_pair
pairs-fail_pending id m w = refl

pub pairs-log_event :
    (t : EventType) (f : Option ℕ) (w : World) → (log_event t f w).1.pairs ≡ w.pairs
unfolding log_event
pairs-log_event t f w = refl

pub refresh_pair-SameTables :
    (pair : DrivePair) (w : World) → SameTables w (refresh_pair_virtual_paths pair w).1
unfolding refresh_pair_virtual_paths
refresh_pair-SameTables pair w =
    ground (arith, refresh_all_virtual_paths-SameTables (only_pair pair) w)

pub pairs-refresh :
    (pair : DrivePair) (w : World) → (refresh_pair_virtual_paths pair w).1.pairs ≡ w.pairs
pairs-refresh pair w = (refresh_pair-SameTables pair w).0

pub queue-refresh :
    (pair : DrivePair) (w : World) → (refresh_pair_virtual_paths pair w).1.queue ≡ w.queue
queue-refresh pair w = (refresh_pair-SameTables pair w).3

pairs-create_dedup :
    (f : ℕ) (a : Action) (w : World) → (create_dedup_with_created f a w).1.pairs ≡ w.pairs
unfolding create_dedup_with_created create_dedup_with_reason
    create_sync_queue_item_with_reason_and_error
pairs-create_dedup f a w = ground arith

pub pairs-queue_rebuild :
    (a : Action) (fs : List TrackedFile) (n : ℕ) (w : World)
    → (queue_rebuild a fs n w).1.pairs ≡ w.pairs
unfolding queue_rebuild
pairs-queue_rebuild a [] n w = refl
pairs-queue_rebuild a (f ∷ fs) n w =
    grind (arith, pairs-create_dedup f.id a w, pairs-queue_rebuild a fs)

pub pairs-mark_all_mirrored :
    (fs : List TrackedFile) (w : World) → (mark_all_mirrored fs w).1.pairs ≡ w.pairs
unfolding mark_all_mirrored update_tracked_file_mirror_status
pairs-mark_all_mirrored [] w = refl
pairs-mark_all_mirrored (f ∷ fs) w =
    pairs-mark_all_mirrored fs (update_tracked_file_mirror_status f.id true w).1

-- Finalizing a rebuild leaves the queue alone.
queue-mark_all_mirrored :
    (fs : List TrackedFile) (w : World) → (mark_all_mirrored fs w).1.queue ≡ w.queue
unfolding mark_all_mirrored update_tracked_file_mirror_status
queue-mark_all_mirrored [] w = refl
queue-mark_all_mirrored (f ∷ fs) w =
    queue-mark_all_mirrored fs (update_tracked_file_mirror_status f.id true w).1

queue-mirrored_again : (b : Bool) (id : ℕ) (w : World) → (mirrored_again b id w).1.queue ≡ w.queue
unfolding list_tracked_files_of_pair
queue-mirrored_again false id w = refl
queue-mirrored_again true id w = queue-mark_all_mirrored _ w

queue-update_runtime :
    (id : ℕ) (pp sp : Option FilePath) (ps ss : Option DriveState) (role : Option DriveRole)
    (w : World)
    → (update_drive_pair_runtime id pp sp ps ss role w).1.queue ≡ w.queue
unfolding update_drive_pair_runtime get_drive_pair
queue-update_runtime id pp sp ps ss role w = ground arith

abbrev after_update : ℕ → DrivePair → Exec World (Option DrivePair)
after_update id updated = do
  mark_drive_pair_unmirrored id
  mirrored_again (state_eq updated.primary_state active && state_eq updated.secondary_state active)
      id
  ignore (refresh_pair_virtual_paths updated)
  ignore (log_event drive_rebuild_completed none)
  pure (some updated)

queue-after_update :
    (id : ℕ) (updated : DrivePair) (w : World) → (after_update id updated w).1.queue ≡ w.queue
unfolding log_event mark_drive_pair_unmirrored
queue-after_update id updated w = grind (arith, queue-mirrored_again, queue-refresh)

queue-continue :
    (f : DrivePair → Exec World (Option DrivePair)) (r : Result DrivePair × World) (w : World)
    → ((p : DrivePair) (v : World) → (f p v).1.queue ≡ v.queue)
    → r.1.queue ≡ w.queue
    → (continue r.0 f r.1).1.queue ≡ w.queue
queue-continue f (ok p, v) w k h = k p v ∙ h
queue-continue f (err e, v) w k h = h

pub queue-finalize_rebuild :
    (id : ℕ) (role : DriveRole) (w : World) → (finalize_rebuild id role w).1.queue ≡ w.queue
unfolding finalize_rebuild
queue-finalize_rebuild id role w =
    queue-continue (after_update id)
      (update_drive_pair_runtime id none none (on_primary role active) (on_secondary role active)
        (on_primary role primary) w)
      w (queue-after_update id)
      (queue-update_runtime id none none (on_primary role active) (on_secondary role active)
        (on_primary role primary) w)

pub queue-maybe_finalize :
    (id : ℕ) (a : Action) (w : World) → (maybe_finalize_rebuild_for_action id a w).1.queue ≡ w.queue
unfolding maybe_finalize_rebuild_for_action get_drive_pair
    count_sync_queue_items_for_drive_pair_action
queue-maybe_finalize id a w =
    ground (arith, queue-finalize_rebuild id primary w, queue-finalize_rebuild id secondary w)
