-- ===== src/Tests/Pairs.antt =====
-- The theorems on drive pairs and virtual paths at the small world.
use bitprotector.Fs.{create_parent}
use bitprotector.Drive.Failover.{IsLost, IsFailedOver, maybe_emergency_failover_lem}
use bitprotector.Base.{◌⊎◌, false, ◌≡◌, refl, none, text, ok, err, Error, inl}
use bitprotector.Db.Rows.{DriveState, active, quiescing, primary}
use bitprotector.Drive.Ops.{mark_drive_quiescing, confirm_drive_failure, maybe_emergency_failover}
use bitprotector.Drive.Lifecycle.{
  MovesOne, mark_drive_quiescing-MovesOne, confirm_drive_failure-MovesOne,
}
use bitprotector.VirtualPath.Refresh.{refresh_all_virtual_paths, create_symlink}
use bitprotector.VirtualPath.Links.{LinkPost, create_symlink_lem}
use bitprotector.VirtualPath.Frame.{refresh_all_virtual_paths_stray}
use bitprotector.Tests.Data.{on_master, small_fs, lost_fs, pair_with, world_with}

mark_drive_quiescing-MovesOne_example :
    MovesOne 1 primary active quiescing
      (world_with active small_fs)
      (mark_drive_quiescing 1 primary (world_with active small_fs))
mark_drive_quiescing-MovesOne_example =
    mark_drive_quiescing-MovesOne 1 primary (world_with active small_fs)

confirm_drive_failure-MovesOne_example :
    MovesOne 1 primary quiescing DriveState.failed
      (world_with quiescing small_fs)
      (confirm_drive_failure 1 primary (world_with quiescing small_fs))
confirm_drive_failure-MovesOne_example =
    confirm_drive_failure-MovesOne 1 primary (world_with quiescing small_fs)

maybe_emergency_failover_lem_example :
    (IsLost (pair_with active) (world_with active lost_fs)
      × IsFailedOver
          (pair_with active)
          (world_with active lost_fs)
          (maybe_emergency_failover (pair_with active) (world_with active lost_fs)))
    ⊎ ((¬ IsLost (pair_with active) (world_with active lost_fs))
        × (maybe_emergency_failover (pair_with active) (world_with active lost_fs)
            ≡ (ok (pair_with active), world_with active lost_fs)))
maybe_emergency_failover_lem_example =
    maybe_emergency_failover_lem (pair_with active) (world_with active lost_fs) refl

refresh_all_virtual_paths_stray_example :
    (e : Error) × (refresh_all_virtual_paths (λ id. none) (world_with active small_fs)
      ≡ (err e, world_with active small_fs))
refresh_all_virtual_paths_stray_example =
    refresh_all_virtual_paths_stray (λ id. none) (world_with active small_fs)
      (inl (text "/v/a", refl, refl))

create_symlink_lem_example :
    LinkPost
      (text "/v/b")
      on_master
      false
      (world_with active small_fs)
      (create_parent (text "/v/b") small_fs)
      (create_symlink (text "/v/b") on_master false (world_with active small_fs))
create_symlink_lem_example =
    create_symlink_lem (text "/v/b") on_master (world_with active small_fs) false
