-- ===== src/Tests/Replacing.antt =====
-- The theorems on the failure, the replacement and the rebuild of a drive, and on the check of a
-- file, at the small world.
use bitprotector.Base.{◌≡◌, refl, true, text, text_eq, ok}
use bitprotector.Checksum.{streaming, mmap_rayon}
use bitprotector.Db.Rows.{
  DriveState, active, quiescing, rebuilding, primary, secondary, restore_master,
}
use bitprotector.Drive.Pair.{role_state, path_is_available}
use bitprotector.Drive.Ops.{
  confirm_drive_failure, assign_replacement_drive, maybe_finalize_rebuild_for_action,
}
use bitprotector.Drive.Takeover.{taken_over, confirm_drive_failure_takes_any_standby}
use bitprotector.Drive.Rebuild.{RebuildPost, maybe_finalize_rebuild_for_action_lem}
use bitprotector.Drive.Replacement.{AssignPost, assign_replacement_drive_lem}
use bitprotector.Integrity.{check_file_integrity}
use bitprotector.Integrity.Check.{CheckPost, check_file_integrity_lem}
use bitprotector.Tests.Data.{toy, small_fs, pair_with, tracked, world_with}

standby_reachable : path_is_available small_fs (text "/s") ≡ true
unfolding path_is_available text_eq
standby_reachable = refl

confirm_drive_failure_takes_any_standby_example :
    ((confirm_drive_failure 1 primary (world_with quiescing small_fs)).0
      ≡ ok (taken_over (pair_with quiescing)))
    × ((taken_over (pair_with quiescing)).active_role ≡ secondary)
    × (role_state (taken_over (pair_with quiescing)) secondary ≡ active)
confirm_drive_failure_takes_any_standby_example =
    confirm_drive_failure_takes_any_standby (pair_with quiescing) (world_with quiescing small_fs)
      refl refl standby_reachable

maybe_finalize_rebuild_for_action_lem_example :
    RebuildPost 1 restore_master
      (world_with rebuilding small_fs)
      (maybe_finalize_rebuild_for_action 1 restore_master (world_with rebuilding small_fs))
maybe_finalize_rebuild_for_action_lem_example =
    maybe_finalize_rebuild_for_action_lem 1 restore_master (world_with rebuilding small_fs)

assign_replacement_drive_lem_example :
    AssignPost 1 primary
      (text "/s")
      (world_with DriveState.failed small_fs)
      (assign_replacement_drive 1 primary (text "/s") (world_with DriveState.failed small_fs))
assign_replacement_drive_lem_example =
    assign_replacement_drive_lem 1 primary (text "/s") (world_with DriveState.failed small_fs)

check_file_integrity_lem_example :
    CheckPost toy
      (pair_with active)
      tracked
      small_fs
      (check_file_integrity toy (pair_with active) tracked streaming mmap_rayon small_fs)
check_file_integrity_lem_example =
    check_file_integrity_lem toy (pair_with active) tracked streaming mmap_rayon small_fs
