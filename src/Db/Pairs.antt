-- ===== src/Db/Pairs.antt =====
-- db/repository.rs: the statements on drive_pairs.
use bitprotector.Base.{
  ℕ, Bool, Option, none, some, ◌==◌, Exec, gets, or_raise, modify, raise_if, ◌>>=◌, ◌>>◌, ltb,
  row_not_found, option_is, still_referenced, files_still_tracked,
}
use bitprotector.Base.Table.{find, update_where, delete_where, count_where}
use bitprotector.Fs.{FilePath}
use bitprotector.Db.Rows.{DrivePair, DriveState, DriveRole, TrackedFile, TrackedFolder}
use bitprotector.Db.RunRows.{IntegrityRun, IntegrityRunResult}
use bitprotector.Db.World.{World}

abbrev pub pair_is : ℕ → DrivePair → Bool
pair_is id p = p.id == id

unfoldable pub get_drive_pair : ℕ → Exec World DrivePair
get_drive_pair id = do found ← gets (λ w. find (pair_is id) w.pairs); or_raise found row_not_found

abbrev pub given_or {ℓ} : {A : Type ℓ} → Option A → A → A
given_or none old = old
given_or (some new) old = new

-- The columns that are given are set, one UPDATE for each.
abbrev pub set_runtime :
    Option FilePath
    → Option FilePath
    → Option DriveState
    → Option DriveState
    → Option DriveRole
    → DrivePair
    → DrivePair
set_runtime primary_path secondary_path primary_state secondary_state active_role p = record p {
  primary_path = given_or primary_path p.primary_path;
  secondary_path = given_or secondary_path p.secondary_path;
  primary_state = given_or primary_state p.primary_state;
  secondary_state = given_or secondary_state p.secondary_state;
  active_role = given_or active_role p.active_role;
}

unfoldable pub update_drive_pair_runtime :
    ℕ
    → Option FilePath
    → Option FilePath
    → Option DriveState
    → Option DriveState
    → Option DriveRole
    → Exec World DrivePair
update_drive_pair_runtime id primary_path secondary_path primary_state secondary_state active_role =
    do
      modify (λ w. record w {
        pairs =
            update_where (pair_is id)
              (set_runtime primary_path secondary_path primary_state secondary_state active_role)
              w.pairs;
      })
      get_drive_pair id

-- Tracked folders and results of integrity runs refer to the pair and make the DELETE fail; the
-- runs over the pair lose their scope.
unfoldable pub delete_drive_pair : ℕ → Exec World (Unit {0})
delete_drive_pair id = do
  count ← gets (λ w. count_where (λ (f : TrackedFile). f.drive_pair_id == id) w.files)
  raise_if (ltb 0 count) files_still_tracked
  folders ← gets (λ w. count_where (λ (d : TrackedFolder). d.drive_pair_id == id) w.folders)
  raise_if (ltb 0 folders) still_referenced
  results ←
      gets (λ w. count_where (λ (r : IntegrityRunResult). r.drive_pair_id == id) w.run_results)
  raise_if (ltb 0 results) still_referenced
  modify (λ w. record w {
    pairs = delete_where (pair_is id) w.pairs;
    runs =
        update_where (λ (r : IntegrityRun). option_is id r.scope_drive_pair_id)
          (λ r. record r { scope_drive_pair_id = none }) w.runs;
  })
