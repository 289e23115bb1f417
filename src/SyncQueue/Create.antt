-- ===== src/SyncQueue/Create.antt =====
-- core/sync_queue.rs: the items that failures, changes and new files give rise to.
use bitprotector.Base.{
  ℕ, Option, none, some, Text, Exec, pure, raise, or_raise, if◌then◌else◌, ◌>>=◌, already_pending,
}
use bitprotector.Db.Rows.{
  Action, mirror, restore_master, restore_mirror, user_action_required, adopt_mirror, Message,
  SyncQueueItem, TrackedFile,
}
use bitprotector.Db.World.{World}
use bitprotector.Db.Queue.{create_dedup, create_dedup_with_created, create_dedup_with_reason}
use bitprotector.Integrity.{
  IntegrityStatus, intact, master_corrupted, mirror_corrupted, both_corrupted, mirror_missing,
  master_missing, primary_drive_unavailable, secondary_drive_unavailable, IntegrityCheckResult,
}

-- The match of create_from_integrity_failure.
abbrev pub failure_action : IntegrityStatus → Option Action
failure_action intact = none
failure_action primary_drive_unavailable = none
failure_action secondary_drive_unavailable = none
failure_action both_corrupted = some user_action_required
failure_action mirror_corrupted = some restore_mirror
failure_action mirror_missing = some restore_mirror
failure_action master_corrupted = some restore_master
failure_action master_missing = some restore_master

unfoldable pub create_from_integrity_failure :
    TrackedFile → IntegrityCheckResult → Exec World (Option SyncQueueItem)
create_from_integrity_failure file result = elim (failure_action result.status) [
  | none ↦ pure none
  | some action ↦ create_dedup file.id action
]

unfoldable pub create_from_change : ℕ → Exec World SyncQueueItem
create_from_change file_id = do item ← create_dedup file_id mirror; or_raise item already_pending

unfoldable pub create_for_new_tracking : ℕ → Exec World SyncQueueItem
create_for_new_tracking file_id = do
  r ← create_dedup_with_created file_id adopt_mirror
  if r.1 then pure r.0 else raise already_pending

unfoldable pub create_user_action_required : ℕ → Text → Message → Exec World SyncQueueItem
create_user_action_required file_id reason message = do
  r ← create_dedup_with_reason file_id user_action_required (some reason) (some message)
  pure r.0
