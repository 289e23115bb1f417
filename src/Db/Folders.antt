-- ===== src/Db/Folders.antt =====
-- db/repository.rs: the statements on tracked_folders that the virtual paths use.
pub mod Operations
pub mod States
pub mod Exclusion
use bitprotector.Base.{
  ℕ, Bool, Option, none, some, ◌==◌, Text, Exec, gets, modify, or_raise, ◌>>=◌, ◌>>◌, row_not_found,
}
use bitprotector.Base.Table.{find, update_where}
use bitprotector.Db.Rows.{TrackedFolder}
use bitprotector.Db.World.{World}

abbrev pub folder_is : ℕ → TrackedFolder → Bool
folder_is id d = d.id == id

unfoldable pub get_tracked_folder : ℕ → Exec World TrackedFolder
get_tracked_folder id = do
  found ← gets (λ w. find (folder_is id) w.folders)
  or_raise found row_not_found

-- The outer `none` leaves the virtual path as it is.
abbrev pub set_folder_row : ℕ → Option (Option Text) → World → World
set_folder_row id none w = w
set_folder_row id (some virtual) w = record w {
  folders = update_where (folder_is id) (λ d. record d { virtual_path = virtual }) w.folders;
}

unfoldable pub update_tracked_folder : ℕ → Option (Option Text) → Exec World TrackedFolder
update_tracked_folder id virtual = do modify (set_folder_row id virtual); get_tracked_folder id
