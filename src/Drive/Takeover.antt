-- ===== src/Drive/Takeover.antt =====
-- The drive that takes over when the failure of the active one is confirmed.
use bitprotector.Base.{◌≡◌, refl, true, none, some, arith, ok}
use bitprotector.Base.Table.{find}
use bitprotector.Db.Rows.{DrivePair, DriveRole, primary, secondary, role_eq, DriveState, quiescing}
use bitprotector.Db.World.{World, log_event}
use bitprotector.Db.Files.{mark_drive_pair_unmirrored}
use bitprotector.Db.Queue.{fail_pending_sync_queue_for_drive_pair}
use bitprotector.Db.Pairs.{pair_is, set_runtime}
use bitprotector.Drive.Pair.{role_state, standby_role, standby_path, path_is_available}
use bitprotector.Drive.Ops.{confirm_drive_failure, on_primary, on_secondary}
use bitprotector.Drive.Runtime.{get_drive_pair_found, update_drive_pair_runtime_lem}

-- The row in which the active drive is failed and the other one is the active one, in the state
-- that it had.
abbrev pub taken_over : DrivePair → DrivePair
taken_over pair =
    set_runtime none none (on_primary pair.active_role DriveState.failed)
      (on_secondary pair.active_role DriveState.failed) (some (standby_role pair)) pair

role_eq_refl : (r : DriveRole) → role_eq r r ≡ true
role_eq_refl primary = refl
role_eq_refl secondary = refl

standby_keeps_state :
    (pair : DrivePair)
    → role_state (taken_over pair) (taken_over pair).active_role
      ≡ role_state pair (standby_role pair)
standby_keeps_state pair = ground arith

-- For a stored pair whose active drive is quiescing and whose other drive's path is available:
-- confirming the failure of the active drive succeeds, and the other drive is the active one in
-- the row that it returns, in whatever state it was: also if it was failed or being rebuilt.
pub confirm_drive_failure_takes_any_standby :
    (pair : DrivePair) (w : World)
    → find (pair_is pair.id) w.pairs ≡ some pair
    → role_state pair pair.active_role ≡ quiescing
    → path_is_available w.fs (standby_path pair) ≡ true
    → ((confirm_drive_failure pair.id pair.active_role w).0 ≡ ok (taken_over pair))
      × ((taken_over pair).active_role ≡ standby_role pair)
      × (role_state (taken_over pair) (standby_role pair) ≡ role_state pair (standby_role pair))
unfolding confirm_drive_failure log_event mark_drive_pair_unmirrored
    fail_pending_sync_queue_for_drive_pair
confirm_drive_failure_takes_any_standby pair w found state reachable = (
  rw
      (
        get_drive_pair_found pair.id w pair found,
        state,
        role_eq_refl pair.active_role,
        reachable,
        update_drive_pair_runtime_lem pair.id none none
            (on_primary pair.active_role DriveState.failed)
            (on_secondary pair.active_role DriveState.failed) (some (standby_role pair)) w pair
            found,
      )
      refl,
  refl,
  standby_keeps_state pair,
)
