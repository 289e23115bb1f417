-- ===== src/Tests/Work.antt =====
-- The theorems on the sync queue at the small world.
use bitprotector.SyncQueue.Process.Outcome.{status_after, status_of, process_item_status}
use bitprotector.Db.Rows.{SyncQueueItem, verify, active, quiescing}
use bitprotector.Base.{err, text, not_resolvable, ◌∷◌, ◌≡◌, refl, false, none, some, [], text_eq}
use bitprotector.Db.World.{World}
use bitprotector.Db.Queue.{list_pending_sync_queue_with_drive_pair, rank_items, by_rank}
use bitprotector.Drive.Ops.{must_fail_over}
use bitprotector.Drive.Pair.{is_quiescing, path_is_available, missing_expected_root_marker}
use bitprotector.SyncQueue.Process.{process_item}
use bitprotector.SyncQueue.Drain.{drain_loop, pending_page, all_skipped, Pass}
use bitprotector.SyncQueue.Drain.Blocked.{drain_loop_blocked, SameWork}
use bitprotector.SyncQueue.Resolve.{resolve_queue_item, apply_resolution, provide_new}
use bitprotector.SyncQueue.Resolve.Limits.{
  resolve_queue_item_guarded, stored_checksums, apply_resolution_keeps_checksums,
}
use bitprotector.Tests.Data.{toy, small_fs, pair_with, tracked, mirror_item, world_with}

calm : must_fail_over (world_with active small_fs) (pair_with active) ≡ false
unfolding must_fail_over path_is_available missing_expected_root_marker text_eq
calm = refl

awake : is_quiescing (pair_with active) ≡ false
unfolding is_quiescing
awake = refl

abbrev verify_item : SyncQueueItem
verify_item = record mirror_item { action = verify }

process_item_status_example :
    status_of 7 (process_item toy verify_item (world_with active small_fs)).1
    ≡ some (status_after toy (pair_with active) tracked verify small_fs)
process_item_status_example =
    process_item_status toy verify_item mirror_item tracked (pair_with active)
      (world_with active small_fs) refl refl refl calm awake refl

abbrev stuck_world : World
stuck_world = world_with quiescing small_fs

abbrev stuck_pass : Pass
stuck_pass = record { world = stuck_world; processed = 0 }

drain_loop_blocked_example :
    ((drain_loop toy none 100 (λ n. []) stuck_pass).0 ≡ none)
    × SameWork stuck_world (drain_loop toy none 100 (λ n. []) stuck_pass).1
unfolding pending_page list_pending_sync_queue_with_drive_pair rank_items by_rank all_skipped
    is_quiescing
drain_loop_blocked_example =
    drain_loop_blocked toy stuck_world 100 (λ n. []) stuck_pass refl
      ((tracked, pair_with quiescing, refl, refl, refl), tt) refl
      (record { pairs = refl; files = refl; queue = refl; paused = refl })

resolve_queue_item_guarded_example :
    resolve_queue_item toy 7 (text "keep_master") none (world_with active small_fs)
    ≡ (err not_resolvable, world_with active small_fs)
resolve_queue_item_guarded_example =
    resolve_queue_item_guarded toy 7 (text "keep_master") none mirror_item
      (world_with active small_fs) refl refl

apply_resolution_keeps_checksums_example :
    stored_checksums
      (apply_resolution toy mirror_item tracked
        (pair_with active)
        (some (text "/s/a"))
        provide_new
        (world_with active small_fs)).1
    ≡ (1 ∷ 2 ∷ []) ∷ []
apply_resolution_keeps_checksums_example =
    apply_resolution_keeps_checksums toy mirror_item tracked (pair_with active) (some (text "/s/a"))
      (world_with active small_fs)
