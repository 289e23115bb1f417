-- ===== src/Db/Folders/Operations.antt =====
-- db/repository.rs: the operations on a tracked folder, of which one may run at a time.
use bitprotector.Fs.{FilePath}
use bitprotector.Db.World.{World}
use bitprotector.Db.Rows.{TrackedFolder}
use bitprotector.Db.Pairs.{pair_is}
use bitprotector.Db.Folders.{folder_is, get_tracked_folder}
use bitprotector.Db.Files.{delete_tracked_file}
use bitprotector.Base.Table.{count_where, delete_where, find, update_where}
use bitprotector.Base.{
  Bool, Exec, List, Option, Text, [], duplicate_row, false, folder_busy, foreign_key_failed, gets,
  is_some, modify, none, not, pure, raise_if, some, text_eq, true, ℕ, ◌&&◌, ◌++◌, ◌+◌, ◌==◌, ◌>>=◌,
  ◌>>◌, ◌||◌, ◌∷◌,
}

abbrev pub folder_count : (TrackedFolder → Bool) → Exec World ℕ
folder_count p = gets (λ w. count_where p w.folders)

abbrev pub update_folders :
    (TrackedFolder → Bool) → (TrackedFolder → TrackedFolder) → Exec World (Unit {0})
update_folders p f = modify (λ w. record w { folders = update_where p f w.folders })

-- scanning = 0 AND mirroring = 0 AND deleting = 0
abbrev pub is_idle : TrackedFolder → Bool
is_idle d = not d.scanning && not d.mirroring && not d.deleting

-- What the statements set in a row.
abbrev pub begin_scan : ℕ → TrackedFolder → TrackedFolder
begin_scan total_files d = record d {
  scanning = true;
  scan_scanned_files = 0;
  scan_total_files = total_files;
}

abbrev pub begin_mirror : ℕ → TrackedFolder → TrackedFolder
begin_mirror total_files d = record d {
  mirroring = true;
  mirror_mirrored_files = 0;
  mirror_total_files = total_files;
}

abbrev pub begin_delete : TrackedFolder → TrackedFolder
begin_delete d = record d { deleting = true }

abbrev pub end_scan : TrackedFolder → TrackedFolder
end_scan d = record d { scanning = false }

abbrev pub end_mirror : ℕ → TrackedFolder → TrackedFolder
end_mirror now d = record d { mirroring = false; last_mirrored_at = some now }

abbrev pub end_delete : TrackedFolder → TrackedFolder
end_delete d = record d { deleting = false }

abbrev pub end_all : TrackedFolder → TrackedFolder
end_all d = record d { scanning = false; mirroring = false; deleting = false }

abbrev pub is_busy : TrackedFolder → Bool
is_busy d = d.scanning || d.mirroring || d.deleting

abbrev pub is_idle_folder : ℕ → TrackedFolder → Bool
is_idle_folder id d = folder_is id d && is_idle d

-- An UPDATE of the folder if it is idle, and the error where it changed no row.
unfoldable pub start_operation : ℕ → (TrackedFolder → TrackedFolder) → Exec World TrackedFolder
start_operation id f = do
  updated ← folder_count (is_idle_folder id)
  update_folders (is_idle_folder id) f
  raise_if (updated == 0) folder_busy
  get_tracked_folder id

unfoldable pub start_folder_scan : ℕ → ℕ → Exec World TrackedFolder
start_folder_scan id total_files = start_operation id (begin_scan total_files)

unfoldable pub start_folder_mirror : ℕ → ℕ → Exec World TrackedFolder
start_folder_mirror id total_files = start_operation id (begin_mirror total_files)

unfoldable pub start_folder_delete : ℕ → Exec World TrackedFolder
start_folder_delete id = start_operation id begin_delete

unfoldable pub update_scan_progress : ℕ → ℕ → Exec World (Unit {0})
update_scan_progress id scanned_files =
    update_folders (folder_is id) (λ d. record d { scan_scanned_files = scanned_files })

unfoldable pub update_mirror_progress : ℕ → ℕ → Exec World (Unit {0})
update_mirror_progress id mirrored_files =
    update_folders (folder_is id) (λ d. record d { mirror_mirrored_files = mirrored_files })

unfoldable pub finish_folder_scan : ℕ → Exec World TrackedFolder
finish_folder_scan id = do update_folders (folder_is id) end_scan; get_tracked_folder id

unfoldable pub finish_folder_mirror : ℕ → Exec World TrackedFolder
finish_folder_mirror id = do
  (λ w. update_folders (folder_is id) (end_mirror w.now) w)
  get_tracked_folder id

unfoldable pub clear_folder_delete : ℕ → Exec World (Unit {0})
clear_folder_delete id = update_folders (folder_is id) end_delete

unfoldable pub mark_tracked_folder_scanned : ℕ → Exec World (Unit {0})
mark_tracked_folder_scanned id w =
    update_folders (folder_is id)
      (λ d. record d { last_scanned_at = some w.now; scan_scanned_files = d.scan_total_files }) w

unfoldable pub reset_stale_folder_flags : Exec World ℕ
reset_stale_folder_flags = do
  count ← folder_count is_busy
  update_folders is_busy end_all
  pure count

-- UNIQUE(drive_pair_id, folder_path)
abbrev pub same_folder : ℕ → FilePath → TrackedFolder → Bool
same_folder pair_id path d = (d.drive_pair_id == pair_id) && text_eq d.folder_path path

unfoldable pub create_tracked_folder_with_sidecars :
    ℕ → FilePath → Option Text → Bool → Exec World TrackedFolder
create_tracked_folder_with_sidecars pair_id path virtual sidecars = do
  pair_known ← gets (λ w. is_some (find (pair_is pair_id) w.pairs))
  taken ← gets (λ w. is_some (find (same_folder pair_id path) w.folders))
  raise_if taken duplicate_row
  raise_if (not pair_known) foreign_key_failed
  id ← gets (λ w. w.next_folder_id)
  modify (λ w. record w {
    folders =
        w.folders
        ++ record {
          id = id;
          drive_pair_id = pair_id;
          folder_path = path;
          virtual_path = virtual;
          include_checksum_sidecars = sidecars;
          scanning = false;
          scan_scanned_files = 0;
          scan_total_files = 0;
          mirroring = false;
          deleting = false;
          mirror_mirrored_files = 0;
          mirror_total_files = 0;
          last_scanned_at = none;
          last_mirrored_at = none;
        }
          ∷ [];
    next_folder_id = id + 1;
  })
  get_tracked_folder id

unfoldable pub create_tracked_folder : ℕ → FilePath → Option Text → Exec World TrackedFolder
create_tracked_folder pair_id path virtual =
    create_tracked_folder_with_sidecars pair_id path virtual false

unfoldable pub delete_tracked_folder : ℕ → Exec World (Unit {0})
delete_tracked_folder id =
    modify (λ w. record w { folders = delete_where (folder_is id) w.folders })

-- The deletions of one transaction, which nothing makes fail.
unfoldable pub delete_files : List ℕ → World → World
delete_files [] w = w
delete_files (id ∷ ids) w = delete_files ids (delete_tracked_file id w).1

unfoldable pub delete_folder_cascade_tx : ℕ → List ℕ → Exec World (Unit {0})
delete_folder_cascade_tx folder_id file_ids = do
  modify (delete_files file_ids)
  delete_tracked_folder folder_id
