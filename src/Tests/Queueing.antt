-- ===== src/Tests/Queueing.antt =====
-- The theorems on the rows of the queue and on the processing lock at the small world.
use bitprotector.Db.Queue.Creation.{CreationPost, create_dedup_with_reason_lem}
use bitprotector.Base.{
  ◌≤◌, ◌≡◌, refl, Bool, true, false, none, some, [], ◌∷◌, map, arith, ok, if◌then◌else◌,
}
use bitprotector.Base.Table.{count_where}
use bitprotector.Db.Rows.{
  active, mirror, verify, in_progress, SyncQueueItem, is_in_progress, is_pending,
}
use bitprotector.Db.World.{World}
use bitprotector.Db.Queue.{create_dedup_with_reason, requeue_in_progress_sync_queue, same_work}
use bitprotector.Db.Queue.Dedup.{
  IsDeduplicated, create_dedup_with_reason-IsDeduplicated, requeue_in_progress_sync_queue_lem,
}
use bitprotector.Db.Settings.{try_acquire_sync_processing_lock, release_sync_processing_lock}
use bitprotector.Db.Settings.Lock.{
  later, IsHeld, try_acquire_sync_processing_lock_exclusive, release_sync_processing_lock_steals,
}
use bitprotector.Tests.Data.{small_fs, mirror_item, world_with}

abbrev quiet : World
quiet = world_with active small_fs

create_dedup_with_reason_lem_example :
    CreationPost 5 verify none none quiet (create_dedup_with_reason 5 verify none none quiet)
create_dedup_with_reason_lem_example = create_dedup_with_reason_lem 5 verify none none quiet

known : create_dedup_with_reason 5 mirror none none quiet ≡ (ok (mirror_item, false), quiet)
unfolding create_dedup_with_reason
known = refl

one_row : IsDeduplicated (mirror_item ∷ [])
one_row f a r = one (same_work f a r mirror_item)
  where
    one : (b : Bool) → (if b then 1 else 0) ≤ 1
    one true = omega arith
    one false = omega arith

create_dedup_with_reason-IsDeduplicated_example :
    IsDeduplicated (create_dedup_with_reason 5 verify none none quiet).1.queue
create_dedup_with_reason-IsDeduplicated_example =
    create_dedup_with_reason-IsDeduplicated 5 verify none none quiet one_row

abbrev interrupted : World
interrupted = record quiet { queue = record mirror_item { status = in_progress } ∷ [] }

requeue_in_progress_sync_queue_lem_example :
    let l = (requeue_in_progress_sync_queue interrupted).1.queue in
    (count_where (λ (i : SyncQueueItem). is_in_progress i.status) l ≡ 0)
    × (count_where (λ (i : SyncQueueItem). is_pending i.status) l ≡ 1)
    × (map (λ (i : SyncQueueItem). i.id) l ≡ 7 ∷ [])
requeue_in_progress_sync_queue_lem_example = requeue_in_progress_sync_queue_lem interrupted

abbrev locked : World
locked = record quiet {
  settings = record {
    queue_paused = false;
    processing_locked_at = some 1000;
    processing_locked_by_pid = some 40;
  };
}

try_acquire_sync_processing_lock_exclusive_example :
    try_acquire_sync_processing_lock 41 (λ pid. true) 300 (later 299 locked)
    ≡ (ok false, later 299 locked)
try_acquire_sync_processing_lock_exclusive_example =
    try_acquire_sync_processing_lock_exclusive (λ pid. true) 300 40 41 299 locked (refl, refl) refl
      (omega arith)

release_sync_processing_lock_steals_example :
    let taken = (try_acquire_sync_processing_lock 41 (λ pid. true) 300 (later 300 locked)).1 in
    IsHeld 41 taken
    × ((try_acquire_sync_processing_lock 42
          (λ pid. true)
          300
          (release_sync_processing_lock taken).1).0
        ≡ ok true)
release_sync_processing_lock_steals_example =
    release_sync_processing_lock_steals (λ pid. true) 300 40 41 42 300 locked (refl, refl)
      (omega arith)
