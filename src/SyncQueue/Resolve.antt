-- ===== src/SyncQueue/Resolve.antt =====
-- core/sync_queue.rs: resolve_queue_item.
pub mod Limits
use bitprotector.Base.{
  ℕ, Bool, true, false, not, ◌&&◌, Option, none, some, [], ◌∷◌, ◌++◌, if◌then◌else◌, Text, text,
  text_eq, option_eq, Exec, pure, raise, raise_if, or_raise, gets, ignore, ◌>>=◌, ◌>>◌,
  not_resolvable, not_pending, wrong_resolution, unknown_resolution, new_file_missing, no_filename,
}
use bitprotector.Fs.{FilePath, Fs, exists, is_file, join, create_parent, copy, write, file_name}
use bitprotector.Checksum.Hasher.{Blake3}
use bitprotector.Db.Rows.{
  DrivePair, TrackedFile, adopt_mirror, user_action_required, action_eq, completed, is_pending,
  SyncQueueItem, sync_completed,
}
use bitprotector.Db.World.{World, in_fs, log_event}
use bitprotector.Db.Files.{get_tracked_file, update_tracked_file_mirror_status, delete_tracked_file}
use bitprotector.Db.Queue.{get_sync_queue_item, update_sync_queue_status, create_dedup}
use bitprotector.Drive.Ops.{load_operational_pair}
use bitprotector.Mirror.{restore_from_mirror, restore_mirror_from_master}

pub data Resolution : Type 0 where
  accept_current untrack keep_master keep_mirror provide_new : Resolution
  unknown : Text → Resolution

-- `match resolution`
unfoldable pub resolution_from : Text → Resolution
resolution_from s =
    if text_eq s (text "accept_current")
    then accept_current
    else if text_eq s (text "untrack")
    then untrack
    else if text_eq s (text "keep_master")
    then keep_master
    else if text_eq s (text "keep_mirror")
    then keep_mirror
    else if text_eq s (text "provide_new")
    then provide_new
    else unknown s

-- matches!(resolution, "accept_current" | "untrack")
abbrev pub for_sidecar : Resolution → Bool
for_sidecar accept_current = true
for_sidecar untrack = true
for_sidecar keep_master = false
for_sidecar keep_mirror = false
for_sidecar provide_new = false
for_sidecar (unknown s) = false

abbrev pub b3_sidecar_mismatch_reason : Text
b3_sidecar_mismatch_reason = text "b3_sidecar_mismatch"

abbrev pub is_sidecar_mismatch : SyncQueueItem → Bool
is_sidecar_mismatch item = option_eq item.reason (some b3_sidecar_mismatch_reason)

-- "<checksum>  <filename>\n"
abbrev pub sidecar_line : Text → Text → Text
sidecar_line sum name = sum ++ (b' ' ∷ b' ' ∷ (name ++ 10 ∷ []))

-- The branch for `provide_new`.
unfoldable pub provide_new_file : DrivePair → TrackedFile → Option FilePath → Exec Fs (Unit {0})
provide_new_file pair file none = raise new_file_missing
provide_new_file pair file (some src) = do
  usable ← gets (λ fs. exists fs src && is_file fs src)
  raise_if (not usable) new_file_missing
  create_parent (join pair.primary_path file.relative_path)
  create_parent (join pair.secondary_path file.relative_path)
  copy src (join pair.primary_path file.relative_path)
  copy src (join pair.secondary_path file.relative_path)

-- What follows the three branches that bring the copies in line.
unfoldable pub complete_resolution : SyncQueueItem → TrackedFile → Exec World SyncQueueItem
complete_resolution item file = do
  update_sync_queue_status item.id completed none
  update_tracked_file_mirror_status file.id true
  ignore (log_event sync_completed (some file.id))
  get_sync_queue_item item.id

module _ (b3 : Blake3) where
  unfoldable pub apply_resolution :
      SyncQueueItem
      → TrackedFile
      → DrivePair
      → Option FilePath
      → Resolution
      → Exec World SyncQueueItem
  apply_resolution item file pair new_path accept_current = do
    name ← or_raise (file_name file.relative_path) no_filename
    in_fs (
        write (join pair.primary_path file.relative_path ++ text ".b3")
          (sidecar_line file.checksum name))
    update_sync_queue_status item.id completed none
    create_dedup file.id adopt_mirror
    ignore (log_event sync_completed (some file.id))
    get_sync_queue_item item.id
  apply_resolution item file pair new_path untrack = do
    update_sync_queue_status item.id completed none
    resolved ← get_sync_queue_item item.id
    ignore (log_event sync_completed (some file.id))
    delete_tracked_file file.id
    pure resolved
  apply_resolution item file pair new_path keep_master = do
    in_fs (restore_mirror_from_master b3 pair file.relative_path file.checksum)
    complete_resolution item file
  apply_resolution item file pair new_path keep_mirror = do
    in_fs (restore_from_mirror b3 pair file.relative_path file.checksum)
    complete_resolution item file
  apply_resolution item file pair new_path provide_new = do
    in_fs (provide_new_file pair file new_path)
    complete_resolution item file
  apply_resolution item file pair new_path (unknown s) = raise unknown_resolution

  unfoldable pub resolve_queue_item : ℕ → Text → Option FilePath → Exec World SyncQueueItem
  resolve_queue_item item_id resolution new_path = do
    item ← get_sync_queue_item item_id
    raise_if (not (action_eq item.action user_action_required)) not_resolvable
    raise_if (not (is_pending item.status)) not_pending
    file ← get_tracked_file item.tracked_file_id
    pair ← load_operational_pair file.drive_pair_id
    raise_if (is_sidecar_mismatch item && not (for_sidecar (resolution_from resolution)))
        wrong_resolution
    raise_if (not (is_sidecar_mismatch item) && for_sidecar (resolution_from resolution))
        wrong_resolution
    apply_resolution item file pair new_path (resolution_from resolution)
