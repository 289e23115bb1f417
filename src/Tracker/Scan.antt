-- ===== src/Tracker/Scan.antt =====
-- core/tracker.rs: the walks through a tracked folder. The entries of a directory, as full paths in
-- the order in which the system lists them, are a parameter.
use bitprotector.Tracker.{create_tracked_file_from_disk, found_file, queue_b3_sidecar_mismatch}
use bitprotector.SyncQueue.Drain.{listed}
use bitprotector.SyncQueue.Create.{create_for_new_tracking, create_from_change}
use bitprotector.Fs.{Bytes, FilePath, Fs, content, is_dir, is_file, join}
use bitprotector.Drive.Pair.{active_path, require_pair_mutation_allowed, standby_accepts_sync}
use bitprotector.Db.World.{World, in_fs, log_event}
use bitprotector.Db.Rows.{DrivePair, TrackedFile, TrackedFolder, change_detected, file_created}
use bitprotector.Db.Provenance.{recompute_folder_provenance_for_drive}
use bitprotector.Db.Listing.{get_tracked_file_by_path}
use bitprotector.Db.Like.{trim_slashes}
use bitprotector.Db.Folders.Operations.{mark_tracked_folder_scanned}
use bitprotector.Db.Files.{
  get_tracked_file, update_tracked_file_checksum, update_tracked_file_mirror_status,
}
use bitprotector.Checksum.Hasher.{Blake3}
use bitprotector.Checksum.{checksum_file, streaming}
use bitprotector.Base.{
  Bool, Exec, List, Option, Result, Text, [], err, false, folder_unreadable, gets, if◌then◌else◌,
  ignore, is_some, length, lift, none, not, ok, or_raise, outside_drive, pure, some, suc, text,
  text_eq, true, zero, ℕ, ◌&&◌, ◌++◌, ◌+◌, ◌==◌, ◌>>=◌, ◌>>◌, ◌||◌, ◌∷◌,
}

-- Path::strip_prefix, for a path that starts with the root as it is written.
unfoldable pub strip_prefix : Text → Text → Option Text
strip_prefix [] [] = some []
strip_prefix [] (c ∷ cs) = if c == b'/' then some cs else none
strip_prefix (r ∷ rs) [] = none
strip_prefix (r ∷ rs) (c ∷ cs) = if r == c then strip_prefix rs cs else none

unfoldable pub relative_path_for_entry : FilePath → DrivePair → Result FilePath
relative_path_for_entry path pair = elim (strip_prefix (trim_slashes (active_path pair)) path) [
  | none ↦ err outside_drive
  | some relative ↦ ok relative
]

-- ends_with(".b3")
unfoldable pub is_sidecar_name : Text → Bool
is_sidecar_name [] = false
is_sidecar_name (c ∷ cs) = text_eq (c ∷ cs) (text ".b3") || is_sidecar_name cs

abbrev pub skips_sidecar : TrackedFolder → FilePath → Bool
skips_sidecar folder relative = not folder.include_checksum_sidecars && is_sidecar_name relative

-- dirs_to_visit.pop()
unfoldable pub pop : List FilePath → Option (List FilePath × FilePath)
pop [] = none
pop (d ∷ ds) = elim (pop ds) [ none ↦ some ([], d) | some (rest, last) ↦ some (d ∷ rest, last) ]

module _ (read_dir : Fs → FilePath → Option (List FilePath)) {A : Type 0}
    (step : A → FilePath → Exec World A) where
  -- The entries of one directory: directories are left for later, what is no file is passed over.
  unfoldable pub for_entries : List FilePath → List FilePath → A → Exec World (List FilePath × A)
  for_entries [] dirs a = pure (dirs, a)
  for_entries (p ∷ ps) dirs a = do
    directory_found ← gets (λ w. is_dir w.fs p)
    file_found ← gets (λ w. is_file w.fs p)
    if directory_found
        then for_entries ps (dirs ++ p ∷ []) a
        else if not file_found
        then for_entries ps dirs a
        else do next ← step a p; for_entries ps dirs next

  -- `while let Some(dir) = dirs_to_visit.pop()`, on fuel.
  unfoldable pub walk : ℕ → List FilePath → A → Exec World (Option A)
  walk zero dirs a = pure none
  walk (suc fuel) dirs a = elim (pop dirs) [
    | none ↦ pure (some a)
    | some (rest, dir) ↦ do
      listed ← gets (λ w. read_dir w.fs dir)
      entries ← or_raise listed folder_unreadable
      visited ← for_entries entries rest a
      walk fuel visited.0 visited.1
  ]

abbrev pub folder_root : DrivePair → TrackedFolder → FilePath
folder_root pair folder = join (active_path pair) folder.folder_path

abbrev pub count_entry : DrivePair → TrackedFolder → ℕ → FilePath → Exec World ℕ
count_entry pair folder count path = do
  relative ← lift (relative_path_for_entry path pair)
  pure (if skips_sidecar folder relative then count else count + 1)

unfoldable pub count_folder_files :
    (Fs → FilePath → Option (List FilePath)) → ℕ → DrivePair → TrackedFolder → Exec World (Option ℕ)
count_folder_files read_dir fuel pair folder =
    walk read_dir (count_entry pair folder) fuel (folder_root pair folder ∷ []) 0

-- What follows a walk that came to its end.
abbrev pub scanned : {A : Type 0} → ℕ → ℕ → Option A → Exec World (Option A)
scanned pair_id folder_id none = pure none
scanned pair_id folder_id (some a) = do
  recompute_folder_provenance_for_drive pair_id
  mark_tracked_folder_scanned folder_id
  pure (some a)

pub record Scanned : Type 0 where
  pub scanned_files : ℕ
  pub new_files : ℕ
  pub changed_files : ℕ

module _ (b3 : Blake3) (decode : Bytes → Option Text) where
  -- A file that no row has: it is tracked through the folder and queued.
  unfoldable pub track_found : DrivePair → FilePath → Exec World TrackedFile
  track_found pair relative = do
    from_disk ← create_tracked_file_from_disk b3 decode pair relative false true
    ignore (log_event file_created (some from_disk.tracked_file.id))
    accepts ← gets (λ w. standby_accepts_sync w.fs pair)
    elim from_disk.sidecar_mismatch [
      | some mismatch ↦ queue_b3_sidecar_mismatch from_disk.tracked_file mismatch
      | none ↦
          if accepts
          then (do create_for_new_tracking from_disk.tracked_file.id; pure tt)
          else update_tracked_file_mirror_status from_disk.tracked_file.id false
    ]
    pure from_disk.tracked_file

  unfoldable pub auto_track_entry :
      DrivePair → TrackedFolder → List TrackedFile → FilePath → Exec World (List TrackedFile)
  auto_track_entry pair folder found path = do
    relative ← lift (relative_path_for_entry path pair)
    known ← gets (λ w. is_some (found_file (get_tracked_file_by_path pair.id relative w).0))
    if skips_sidecar folder relative || known then pure found else do
      file ← track_found pair relative
      row ← get_tracked_file file.id
      pure (found ++ row ∷ [])

  -- A file that a row has: a new content is recorded and queued.
  unfoldable pub rescan_known : DrivePair → FilePath → TrackedFile → Exec World Bool
  rescan_known pair path existing = do
    current ← in_fs (checksum_file b3 path streaming)
    size ← gets (λ w. length (content w.fs path))
    accepts ← gets (λ w. standby_accepts_sync w.fs pair)
    if text_eq current existing.checksum then pure false else do
      update_tracked_file_checksum existing.id current size
      update_tracked_file_mirror_status existing.id false
      ignore (log_event change_detected (some existing.id))
      if accepts then (do create_from_change existing.id; pure tt) else pure tt
      pure true

  unfoldable pub scan_entry :
      (ℕ → Exec World (Unit {0}))
      → DrivePair
      → TrackedFolder
      → Scanned
      → FilePath
      → Exec World Scanned
  scan_entry on_progress pair folder s path = do
    relative ← lift (relative_path_for_entry path pair)
    known ← gets (λ w. found_file (get_tracked_file_by_path pair.id relative w).0)
    if skips_sidecar folder relative then pure s else do
      changed ← elim known [
        | some existing ↦ rescan_known pair path existing
        | none ↦ (do track_found pair relative; pure false)
      ]
      on_progress (s.scanned_files + 1)
      pure (record {
        scanned_files = s.scanned_files + 1;
        new_files = if is_some known then s.new_files else s.new_files + 1;
        changed_files = if changed then s.changed_files + 1 else s.changed_files;
      })

  module _ (read_dir : Fs → FilePath → Option (List FilePath)) (fuel : ℕ) where
    unfoldable pub auto_track_folder_files :
        DrivePair → TrackedFolder → Exec World (Option (List TrackedFile))
    auto_track_folder_files pair folder = do
      lift (require_pair_mutation_allowed pair)
      found ← walk read_dir (auto_track_entry pair folder) fuel (folder_root pair folder ∷ []) []
      scanned pair.id folder.id found

    unfoldable pub scan_tracked_folder :
        (ℕ → Exec World (Unit {0})) → DrivePair → TrackedFolder → Exec World (Option Scanned)
    scan_tracked_folder on_progress pair folder = do
      lift (require_pair_mutation_allowed pair)
      found ←
          walk read_dir (scan_entry on_progress pair folder) fuel (folder_root pair folder ∷ [])
            (record { scanned_files = 0; new_files = 0; changed_files = 0 })
      scanned pair.id folder.id found
