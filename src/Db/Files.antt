-- ===== src/Db/Files.antt =====
-- db/repository.rs: the statements on tracked_files.
use bitprotector.Base.{
  ℕ, Bool, false, Option, some, List, ◌==◌, Exec, gets, or_raise, modify, ◌>>=◌, ◌>>◌, Text,
  row_not_found, none, option_is,
}
use bitprotector.Base.Table.{find, select, update_where, delete_where}
use bitprotector.Db.Rows.{TrackedFile, SyncQueueItem, EventLogEntry}
use bitprotector.Db.RunRows.{IntegrityRunResult}
use bitprotector.Db.World.{World}

abbrev pub file_is : ℕ → TrackedFile → Bool
file_is id f = f.id == id

abbrev pub file_of_pair : ℕ → TrackedFile → Bool
file_of_pair pair_id f = f.drive_pair_id == pair_id

unfoldable pub get_tracked_file : ℕ → Exec World TrackedFile
get_tracked_file id = do found ← gets (λ w. find (file_is id) w.files); or_raise found row_not_found

-- list_tracked_files(Some(pair), None, None, 1, i64::MAX): all files of a pair, by id.
unfoldable pub list_tracked_files_of_pair : ℕ → Exec World (List TrackedFile)
list_tracked_files_of_pair pair_id = gets (λ w. select (file_of_pair pair_id) w.files)

abbrev pub update_files : (TrackedFile → Bool) → (TrackedFile → TrackedFile) → World → World
update_files p f w = record w { files = update_where p f w.files }

unfoldable pub mark_drive_pair_unmirrored : ℕ → Exec World (Unit {0})
mark_drive_pair_unmirrored pair_id =
    modify (update_files (file_of_pair pair_id) (λ f. record f { is_mirrored = false }))

unfoldable pub update_tracked_file_checksum : ℕ → Text → ℕ → Exec World (Unit {0})
update_tracked_file_checksum id sum size =
    modify (update_files (file_is id) (λ f. record f { checksum = sum; file_size = size }))

unfoldable pub update_tracked_file_mirror_status : ℕ → Bool → Exec World (Unit {0})
update_tracked_file_mirror_status id mirrored =
    modify (update_files (file_is id) (λ f. record f { is_mirrored = mirrored }))

unfoldable pub update_tracked_file_last_integrity_check_at : ℕ → Exec World (Unit {0})
update_tracked_file_last_integrity_check_at id =
    modify
      (λ w. update_files (file_is id) (λ f. record f { last_integrity_check_at = some w.now }) w)

unfoldable pub update_tracked_file_virtual_path : ℕ → Option Text → Exec World (Unit {0})
update_tracked_file_virtual_path id virtual =
    modify (update_files (file_is id) (λ f. record f { virtual_path = virtual }))

-- The row of a file goes, with what the foreign keys to it ask for: its results in integrity runs
-- go too, and its events lose their file.
abbrev pub forget_file : ℕ → World → World
forget_file id w = record w {
  files = delete_where (file_is id) w.files;
  run_results = delete_where (λ (r : IntegrityRunResult). r.file_id == id) w.run_results;
  events =
      update_where (λ (e : EventLogEntry). option_is id e.tracked_file_id)
        (λ e. record e { tracked_file_id = none }) w.events;
}

unfoldable pub delete_tracked_file : ℕ → Exec World (Unit {0})
delete_tracked_file id = do
  modify (λ w. record w {
    queue = delete_where (λ (i : SyncQueueItem). i.tracked_file_id == id) w.queue;
  })
  modify (forget_file id)
