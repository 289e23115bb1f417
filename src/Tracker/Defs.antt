-- ===== src/Tracker/Defs.antt =====
-- core/tracker.rs: tracking a file, tracking a folder, and untracking a folder with its files.
use bitprotector.VirtualPath.Refresh.{remove_symlink}
use bitprotector.VirtualPath.Assign.{set_folder_virtual_path, set_virtual_path}
use bitprotector.SyncQueue.Resolve.{b3_sidecar_mismatch_reason}
use bitprotector.SyncQueue.Create.{create_user_action_required}
use bitprotector.Sidecar.{read_b3_sidecar}
use bitprotector.Fs.{Bytes, FilePath, Fs, content, exists, is_dir, join, node_mode, set_permissions}
use bitprotector.Drive.Pair.{
  active_path, ensure_drive_root_marker, path_is_available, require_pair_mutation_allowed,
  standby_path,
}
use bitprotector.Db.World.{World, in_fs, log_event}
use bitprotector.Db.Rows.{
  DrivePair, TrackedFile, TrackedFolder, file_created, file_untracked, folder_tracked,
  folder_untracked, given, sync_failed,
}
use bitprotector.Db.Registration.{create_tracked_file_with_source, update_tracked_file_sources}
use bitprotector.Db.Provenance.{
  list_folder_origin_descendant_files, recompute_folder_provenance_for_drive,
}
use bitprotector.Db.Pairs.{get_drive_pair}
use bitprotector.Db.Listing.{get_tracked_file_by_path}
use bitprotector.Db.Folders.Operations.{
  create_tracked_folder_with_sidecars, delete_folder_cascade_tx, delete_tracked_folder,
}
use bitprotector.Db.Folders.{get_tracked_folder}
use bitprotector.Db.Files.{delete_tracked_file, get_tracked_file}
use bitprotector.Checksum.Hasher.{Blake3}
use bitprotector.Checksum.{checksum_file, streaming}
use bitprotector.Base.{
  Bool, Exec, List, Option, Result, Text, [], err, false, file_missing, folder_missing, gets,
  if◌then◌else◌, ignore, length, lift, map, modify, none, not, ok, pure, raise_if, some, text,
  text_eq, true, ℕ, ◌%◌, ◌++◌, ◌+◌, ◌/◌, ◌==◌, ◌>>=◌, ◌>>◌, ◌∷◌,
}

pub record FolderUntrackResult : Type 0 where
  pub folder_id : ℕ
  pub drive_pair_id : ℕ
  pub removed_file_ids : List ℕ

pub record SidecarMismatch : Type 0 where
  pub expected_checksum : Text
  pub computed_checksum : Text

pub record TrackedFileFromDisk : Type 0 where
  pub tracked_file : TrackedFile
  pub sidecar_mismatch : Option SidecarMismatch

-- `mode | bit` for a power of two.
abbrev pub with_bit : ℕ → ℕ → ℕ
with_bit bit mode = if (mode / bit) % 2 == 0 then mode + bit else mode

-- mode | 0o004 | if mode & 0o100 != 0 { 0o001 } else { 0 }
unfoldable pub normalized_mode : ℕ → ℕ
normalized_mode mode =
    if (mode / 64) % 2 == 1 then with_bit 1 (with_bit 4 mode) else with_bit 4 mode

unfoldable pub ensure_world_readable : FilePath → Exec Fs (Unit {0})
ensure_world_readable path = do
  present ← gets (λ fs. exists fs path)
  raise_if (not present) file_missing
  mode ← gets (λ fs. node_mode (fs.node path))
  if normalized_mode mode == mode then pure tt else set_permissions path (normalized_mode mode)

-- The match on what the sidecar says; a malformed one is ignored.
abbrev pub mismatch_of : Text → Result (Option Text) → Option SidecarMismatch
mismatch_of sum (ok none) = none
mismatch_of sum (ok (some expected)) =
    if text_eq expected sum
    then none
    else some (record { expected_checksum = expected; computed_checksum = sum })
mismatch_of sum (err e) = none

-- The message "Expected ... from .b3 sidecar, computed ..."
abbrev pub mismatch_message : SidecarMismatch → Text
mismatch_message m =
    text "Expected "
    ++ (m.expected_checksum ++ (text " from .b3 sidecar, computed " ++ m.computed_checksum))

unfoldable pub queue_b3_sidecar_mismatch : TrackedFile → SidecarMismatch → Exec World (Unit {0})
queue_b3_sidecar_mismatch file mismatch = do
  create_user_action_required file.id b3_sidecar_mismatch_reason (given (mismatch_message mismatch))
  ignore (log_event sync_failed (some file.id))

-- `if let Err(error) = ... { let _ = repo.delete_tracked_file(id); return Err(error); }`
abbrev pub or_untrack : ℕ → Exec World (Unit {0}) → Exec World (Unit {0})
or_untrack id m w = elim (m w).0 [
  | ok done ↦ (ok tt, (m w).1)
  | err e ↦ (err e, (delete_tracked_file id (m w).1).1)
]

abbrev pub or_untrack_folder : ℕ → Exec World (Unit {0}) → Exec World (Unit {0})
or_untrack_folder id m w = elim (m w).0 [
  | ok done ↦ (ok tt, (m w).1)
  | err e ↦ (err e, (delete_tracked_folder id (m w).1).1)
]

abbrev pub assign_file : ℕ → Option Text → Exec World (Unit {0})
assign_file id none = pure tt
assign_file id (some virtual) = set_virtual_path id virtual

abbrev pub assign_folder : ℕ → Option Text → Exec World (Unit {0})
assign_folder id none = pure tt
assign_folder id (some virtual) = set_folder_virtual_path id virtual

abbrev pub queue_mismatch : TrackedFile → Option SidecarMismatch → Exec World (Unit {0})
queue_mismatch file none = pure tt
queue_mismatch file (some mismatch) = queue_b3_sidecar_mismatch file mismatch

abbrev pub found_file : Result TrackedFile → Option TrackedFile
found_file (ok file) = some file
found_file (err e) = none

module _ (b3 : Blake3) (decode : Bytes → Option Text) where
  unfoldable pub create_tracked_file_from_disk :
      DrivePair → FilePath → Bool → Bool → Exec World TrackedFileFromDisk
  create_tracked_file_from_disk pair relative direct via_folder = do
    present ← gets (λ w. exists w.fs (join (active_path pair) relative))
    raise_if (not present) file_missing
    in_fs (ensure_world_readable (join (active_path pair) relative))
    sum ← in_fs (checksum_file b3 (join (active_path pair) relative) streaming)
    sidecar ← gets (λ w. (read_b3_sidecar decode (join (active_path pair) relative) w.fs).0)
    size ← gets (λ w. length (content w.fs (join (active_path pair) relative)))
    file ← create_tracked_file_with_source pair.id relative sum size none direct via_folder
    pure (record { tracked_file = file; sidecar_mismatch = mismatch_of sum sidecar })

  -- A file that is tracked already becomes a directly tracked one.
  unfoldable pub track_again :
      DrivePair → FilePath → Option Text → TrackedFile → Exec World TrackedFile
  track_again pair relative virtual existing = do
    in_fs (ensure_world_readable (join (active_path pair) relative))
    update_tracked_file_sources existing.id true false
    assign_file existing.id virtual
    get_tracked_file existing.id

  unfoldable pub track_new : DrivePair → FilePath → Option Text → Exec World TrackedFile
  track_new pair relative virtual = do
    from_disk ← create_tracked_file_from_disk pair relative true false
    or_untrack from_disk.tracked_file.id (assign_file from_disk.tracked_file.id virtual)
    or_untrack from_disk.tracked_file.id
        (queue_mismatch from_disk.tracked_file from_disk.sidecar_mismatch)
    ignore (log_event file_created (some from_disk.tracked_file.id))
    get_tracked_file from_disk.tracked_file.id

  unfoldable pub track_file : DrivePair → FilePath → Option Text → Exec World TrackedFile
  track_file pair relative virtual = do
    lift (require_pair_mutation_allowed pair)
    in_fs (ensure_drive_root_marker (active_path pair))
    available ← gets (λ w. path_is_available w.fs (standby_path pair))
    if available then ignore (in_fs (ensure_drive_root_marker (standby_path pair))) else pure tt
    known ← gets (λ w. found_file (get_tracked_file_by_path pair.id relative w).0)
    elim known [
      | some existing ↦ track_again pair relative virtual existing
      | none ↦ track_new pair relative virtual
    ]

unfoldable pub track_folder_with_options :
    DrivePair → FilePath → Option Text → Bool → Exec World TrackedFolder
track_folder_with_options pair path virtual sidecars = do
  lift (require_pair_mutation_allowed pair)
  in_fs (ensure_drive_root_marker (active_path pair))
  present ← gets (λ w. is_dir w.fs (join (active_path pair) path))
  raise_if (not present) folder_missing
  folder ← create_tracked_folder_with_sidecars pair.id path none sidecars
  or_untrack_folder folder.id (assign_folder folder.id virtual)
  recompute_folder_provenance_for_drive pair.id
  result ← get_tracked_folder folder.id
  ignore (log_event folder_tracked none)
  pure result

unfoldable pub track_folder : DrivePair → FilePath → Option Text → Exec World TrackedFolder
track_folder pair path virtual = track_folder_with_options pair path virtual false

-- The virtual paths of the files, then that of the folder.
unfoldable pub symlinks_of : List TrackedFile → List Text
symlinks_of [] = []
symlinks_of (f ∷ fs) =
    let rest = symlinks_of fs in elim f.virtual_path [ none ↦ rest | some v ↦ v ∷ rest ]

abbrev pub option_list : Option Text → List Text
option_list none = []
option_list (some v) = v ∷ []

unfoldable pub log_untracked : List TrackedFile → World → World
log_untracked [] w = w
log_untracked (f ∷ fs) w = log_untracked fs (log_event file_untracked (some f.id) w).1

-- The removals whose failures are only logged.
unfoldable pub remove_symlinks : List Text → World → World
remove_symlinks [] w = w
remove_symlinks (v ∷ vs) w = remove_symlinks vs (remove_symlink v w).1

unfoldable pub untrack_folder_cascade : ℕ → Exec World FolderUntrackResult
untrack_folder_cascade folder_id = do
  folder ← get_tracked_folder folder_id
  pair ← get_drive_pair folder.drive_pair_id
  lift (require_pair_mutation_allowed pair)
  descendants ←
      list_folder_origin_descendant_files folder.drive_pair_id folder.folder_path folder.id
  modify (log_untracked descendants)
  delete_folder_cascade_tx folder.id (map (λ (f : TrackedFile). f.id) descendants)
  modify (remove_symlinks (symlinks_of descendants ++ option_list folder.virtual_path))
  ignore (recompute_folder_provenance_for_drive folder.drive_pair_id)
  ignore (log_event folder_untracked none)
  pure (record {
    folder_id = folder.id;
    drive_pair_id = folder.drive_pair_id;
    removed_file_ids = map (λ (f : TrackedFile). f.id) descendants;
  })
