-- ===== src/Drive/Ops.antt =====
-- core/drive.rs: failover, replacement and rebuild of a drive pair.
use bitprotector.Base.{
  ℕ, suc, Bool, true, false, not, ◌&&◌, Option, none, some, List, [], ◌∷◌, ◌==◌, ltb, if◌then◌else◌,
  Exec, pure, raise_if, gets, ignore, ◌>>=◌, ◌>>◌, wrong_drive_state, failover_target_unavailable,
}
use bitprotector.Fs.{FilePath}
use bitprotector.Db.Rows.{
  DriveRole, primary, secondary, role_eq, DriveState, active, quiescing, rebuilding, state_eq,
  DrivePair, TrackedFile, Action, restore_master, restore_mirror, failover_required,
  replacement_confirmed, drive_quiescing, drive_quiesce_cancelled, drive_failure_confirmed,
  drive_failover, drive_replacement_assigned, drive_rebuild_completed,
}
use bitprotector.Db.World.{World, in_fs, log_event}
use bitprotector.Db.Pairs.{get_drive_pair, update_drive_pair_runtime}
use bitprotector.Db.Files.{
  list_tracked_files_of_pair, mark_drive_pair_unmirrored, update_tracked_file_mirror_status,
}
use bitprotector.Db.Queue.{
  create_dedup_with_created, fail_pending_sync_queue_for_drive_pair,
  count_sync_queue_items_for_drive_pair_action,
}
use bitprotector.Drive.Pair.{
  opposite, role_state, standby_role, path_for_role, active_path, path_is_available,
  missing_expected_root_marker, ensure_drive_root_marker,
}
use bitprotector.VirtualPath.Refresh.{refresh_all_virtual_paths}

abbrev pub rebuild_action_for_role : DriveRole → Action
rebuild_action_for_role primary = restore_master
rebuild_action_for_role secondary = restore_mirror

-- `if role == DriveRole::Primary { Some(x) } else { None }`, and the same for the secondary.
abbrev pub on_primary {ℓ} : {A : Type ℓ} → DriveRole → A → Option A
on_primary primary x = some x
on_primary secondary x = none

abbrev pub on_secondary {ℓ} : {A : Type ℓ} → DriveRole → A → Option A
on_secondary primary x = none
on_secondary secondary x = some x

-- The map of refresh_pair_virtual_paths holds the one pair.
abbrev pub only_pair : DrivePair → ℕ → Option DrivePair
only_pair pair id = if pair.id == id then some pair else none

unfoldable pub refresh_pair_virtual_paths : DrivePair → Exec World (Unit {0})
refresh_pair_virtual_paths pair = do refresh_all_virtual_paths (only_pair pair); pure tt

-- The three early returns of maybe_emergency_failover, negated.
unfoldable pub must_fail_over : World → DrivePair → Bool
must_fail_over w pair =
    not (
      path_is_available w.fs (active_path pair)
      && not (missing_expected_root_marker w.fs pair pair.active_role))
    && state_eq (role_state pair pair.active_role) active
    && (state_eq (role_state pair (standby_role pair)) active
        && path_is_available w.fs (path_for_role pair (standby_role pair)))

unfoldable pub fail_over : DrivePair → Exec World DrivePair
fail_over pair = do
  updated ←
      update_drive_pair_runtime pair.id none none (on_primary pair.active_role DriveState.failed)
        (on_secondary pair.active_role DriveState.failed) (some (standby_role pair))
  mark_drive_pair_unmirrored pair.id
  ignore (fail_pending_sync_queue_for_drive_pair pair.id failover_required)
  ignore (refresh_pair_virtual_paths updated)
  ignore (log_event drive_failover none)
  get_drive_pair pair.id

unfoldable pub maybe_emergency_failover : DrivePair → Exec World DrivePair
maybe_emergency_failover pair w = if must_fail_over w pair then fail_over pair w else pure pair w

unfoldable pub load_operational_pair : ℕ → Exec World DrivePair
load_operational_pair pair_id = do pair ← get_drive_pair pair_id; maybe_emergency_failover pair

unfoldable pub mark_drive_quiescing : ℕ → DriveRole → Exec World DrivePair
mark_drive_quiescing pair_id role = do
  pair ← get_drive_pair pair_id
  raise_if (not (state_eq (role_state pair role) active)) wrong_drive_state
  updated ←
      update_drive_pair_runtime pair_id none none (on_primary role quiescing)
        (on_secondary role quiescing) none
  ignore (log_event drive_quiescing none)
  pure updated

unfoldable pub cancel_drive_quiescing : ℕ → DriveRole → Exec World DrivePair
cancel_drive_quiescing pair_id role = do
  pair ← get_drive_pair pair_id
  raise_if (not (state_eq (role_state pair role) quiescing)) wrong_drive_state
  updated ←
      update_drive_pair_runtime pair_id none none (on_primary role active)
        (on_secondary role active) none
  ignore (log_event drive_quiesce_cancelled none)
  pure updated

abbrev pub next_active : DrivePair → DriveRole → DriveRole
next_active pair role = if role_eq pair.active_role role then opposite role else pair.active_role

unfoldable pub confirm_drive_failure : ℕ → DriveRole → Exec World DrivePair
confirm_drive_failure pair_id role = do
  pair ← get_drive_pair pair_id
  raise_if (not (state_eq (role_state pair role) quiescing)) wrong_drive_state
  reachable ← gets (λ w. path_is_available w.fs (path_for_role pair (next_active pair role)))
  raise_if (role_eq role pair.active_role && not reachable) failover_target_unavailable
  updated ←
      update_drive_pair_runtime pair_id none none (on_primary role DriveState.failed)
        (on_secondary role DriveState.failed) (some (next_active pair role))
  mark_drive_pair_unmirrored pair_id
  ignore (fail_pending_sync_queue_for_drive_pair pair_id replacement_confirmed)
  ignore (refresh_pair_virtual_paths updated)
  ignore (log_event drive_failure_confirmed none)
  pure updated

-- The loop that queues a rebuild of every file, with the count of the items created.
unfoldable pub queue_rebuild : Action → List TrackedFile → ℕ → Exec World ℕ
queue_rebuild action [] queued = pure queued
queue_rebuild action (f ∷ fs) queued = do
  r ← create_dedup_with_created f.id action
  queue_rebuild action fs (if r.1 then suc queued else queued)

unfoldable pub assign_replacement_drive : ℕ → DriveRole → FilePath → Exec World (DrivePair × ℕ)
assign_replacement_drive pair_id role new_path = do
  pair ← get_drive_pair pair_id
  raise_if (not (state_eq (role_state pair role) DriveState.failed)) wrong_drive_state
  in_fs (ensure_drive_root_marker new_path)
  updated ←
      update_drive_pair_runtime pair_id (on_primary role new_path) (on_secondary role new_path)
        (on_primary role rebuilding) (on_secondary role rebuilding) none
  files ← list_tracked_files_of_pair pair_id
  queued ← queue_rebuild (rebuild_action_for_role role) files 0
  ignore (log_event drive_replacement_assigned none)
  pure (updated, queued)

unfoldable pub mark_all_mirrored : List TrackedFile → Exec World (Unit {0})
mark_all_mirrored [] = pure tt
mark_all_mirrored (f ∷ fs) = update_tracked_file_mirror_status f.id true >> mark_all_mirrored fs

abbrev pub mirrored_again : Bool → ℕ → Exec World (Unit {0})
mirrored_again false pair_id = pure tt
mirrored_again true pair_id = do files ← list_tracked_files_of_pair pair_id; mark_all_mirrored files

-- The role that an action rebuilds.
abbrev pub rebuilt_role : Action → Option DriveRole
rebuilt_role restore_master = some primary
rebuilt_role restore_mirror = some secondary
rebuilt_role _ = none

unfoldable pub finalize_rebuild : ℕ → DriveRole → Exec World (Option DrivePair)
finalize_rebuild pair_id role = do
  updated ←
      update_drive_pair_runtime pair_id none none (on_primary role active)
        (on_secondary role active) (on_primary role primary)
  mark_drive_pair_unmirrored pair_id
  mirrored_again (state_eq updated.primary_state active && state_eq updated.secondary_state active)
      pair_id
  ignore (refresh_pair_virtual_paths updated)
  ignore (log_event drive_rebuild_completed none)
  pure (some updated)

unfoldable pub maybe_finalize_rebuild_for_action : ℕ → Action → Exec World (Option DrivePair)
maybe_finalize_rebuild_for_action pair_id action = do
  pair ← get_drive_pair pair_id
  elim (rebuilt_role action) [
    | none ↦ pure none
    | some role ↦ if not (state_eq (role_state pair role) rebuilding) then pure none else do
      remaining ← count_sync_queue_items_for_drive_pair_action pair_id action
      if ltb 0 remaining then pure none else finalize_rebuild pair_id role
  ]
