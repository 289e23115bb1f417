-- ===== src/VirtualPath/Assign.antt =====
-- core/virtual_path.rs: giving a virtual path to a tracked file or folder and taking it away.
use bitprotector.Base.{
  ℕ, Bool, true, false, Option, none, some, option_eq, Text, text_eq, if◌then◌else◌, Result, ok,
  err, Exec, pure, raise, lift, ◌>>=◌, ◌>>◌, no_virtual_path,
}
use bitprotector.Fs.{join}
use bitprotector.Db.Rows.{TrackedFolder}
use bitprotector.Db.World.{World}
use bitprotector.Db.Files.{get_tracked_file, update_tracked_file_virtual_path}
use bitprotector.Db.Folders.{get_tracked_folder, update_tracked_folder}
use bitprotector.Drive.Pair.{active_path}
use bitprotector.Drive.Ops.{load_operational_pair}
use bitprotector.VirtualPath.Normalize.{normalize_virtual_path}
use bitprotector.VirtualPath.Refresh.{
  VirtualOwner, validate_virtual_path, create_symlink, remove_symlink,
}

-- file.virtual_path.map(normalize_virtual_path).transpose()
abbrev pub previous_path : Option Text → Result (Option Text)
previous_path none = ok none
previous_path (some v) = elim (normalize_virtual_path v) [ ok n ↦ ok (some n) | err e ↦ err e ]

-- The old link goes, unless it is the new one.
unfoldable pub drop_previous : Option Text → Text → Exec World (Unit {0})
drop_previous none normalized = pure tt
drop_previous (some previous) normalized =
    if text_eq previous normalized then pure tt else remove_symlink previous

-- The branch for a failing update of the row is left out: no statement fails in the model.
unfoldable pub set_virtual_path : ℕ → Text → Exec World (Unit {0})
set_virtual_path file_id virtual = do
  file ← get_tracked_file file_id
  pair ← load_operational_pair file.drive_pair_id
  normalized ← validate_virtual_path (VirtualOwner.file file_id) virtual
  previous ← lift (previous_path file.virtual_path)
  create_symlink normalized (join (active_path pair) file.relative_path)
      (option_eq previous (some normalized))
  update_tracked_file_virtual_path file_id (some normalized)
  drop_previous previous normalized

unfoldable pub remove_virtual_path : ℕ → Exec World (Unit {0})
remove_virtual_path file_id = do
  file ← get_tracked_file file_id
  elim file.virtual_path [
    | none ↦ raise no_virtual_path
    | some v ↦ do
      normalized ← lift (normalize_virtual_path v)
      update_tracked_file_virtual_path file_id none
      remove_symlink normalized
  ]

-- If the row has gone meanwhile the new link is taken away again, unless it is the old one.
abbrev pub or_rollback : Result (Unit {0}) × World → Bool → Text → Result (Unit {0}) × World
or_rollback (ok u, w) same normalized = (ok u, w)
or_rollback (err e, w) true normalized = (err e, w)
or_rollback (err e, w) false normalized = (err e, (remove_symlink normalized w).1)

abbrev pub dropped : Result TrackedFolder → Result (Unit {0})
dropped (ok d) = ok tt
dropped (err e) = err e

unfoldable pub set_folder_virtual_path : ℕ → Text → Exec World (Unit {0})
set_folder_virtual_path folder_id virtual = do
  folder ← get_tracked_folder folder_id
  pair ← load_operational_pair folder.drive_pair_id
  normalized ← validate_virtual_path (VirtualOwner.folder folder_id) virtual
  previous ← lift (previous_path folder.virtual_path)
  create_symlink normalized (join (active_path pair) folder.folder_path)
      (option_eq previous (some normalized))
  (λ w.
      let (r, w') = update_tracked_folder folder_id (some (some normalized)) w in
      or_rollback (dropped r, w') (option_eq previous (some normalized)) normalized)
  drop_previous previous normalized

unfoldable pub remove_folder_virtual_path : ℕ → Exec World (Unit {0})
remove_folder_virtual_path folder_id = do
  folder ← get_tracked_folder folder_id
  elim folder.virtual_path [
    | none ↦ pure tt
    | some v ↦ do
      normalized ← lift (normalize_virtual_path v)
      update_tracked_folder folder_id (some none)
      remove_symlink normalized
  ]
