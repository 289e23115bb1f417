-- ===== src/Db/Provenance.antt =====
-- db/repository.rs: which tracked files belong to which tracked folders.
use bitprotector.Base.Table.Laws.{All-update_where}
use bitprotector.Base.{
  All, inl, inr, ◌⊎◌, ap, arith, if◌then◌else◌, ◌∙◌, Bool, Exec, List, [], false, gets, is_some,
  modify, not, refl, true, ℕ, ◌&&◌, ◌==◌, ◌>>◌, ◌||◌, ◌∷◌, ◌≡◌,
}
use bitprotector.Fs.{FilePath}
use bitprotector.Db.World.{World}
use bitprotector.Db.Rows.{TrackedFile, TrackedFolder}
use bitprotector.Db.Like.{under_folder, under_folder_like}
use bitprotector.Db.Files.{file_of_pair, update_files}
use bitprotector.Base.Table.{find, select, update_where}

-- EXISTS (SELECT 1 FROM tracked_folders WHERE ...)
unfoldable pub in_some_folder : List TrackedFolder → TrackedFile → Bool
in_some_folder folders f = is_some (
    find
      (λ (d : TrackedFolder).
        (d.drive_pair_id == f.drive_pair_id) && under_folder_like d.folder_path f.relative_path)
      folders)

unfoldable pub recompute_folder_provenance_for_drive : ℕ → Exec World (Unit {0})
recompute_folder_provenance_for_drive pair_id = do
  modify (update_files (file_of_pair pair_id) (λ f. record f { tracked_via_folder = false }))
  modify (λ w.
      update_files
        (λ f. file_of_pair pair_id f && not f.tracked_direct && in_some_folder w.folders f)
        (λ f. record f { tracked_via_folder = true }) w)
  modify (
      update_files (λ f. file_of_pair pair_id f && not f.tracked_direct && not f.tracked_via_folder)
        (λ f. record f { tracked_direct = true }))

unfoldable pub list_tracked_files_under_folder : ℕ → FilePath → Exec World (List TrackedFile)
list_tracked_files_under_folder pair_id folder =
    gets (λ w. select (λ f. file_of_pair pair_id f && under_folder folder f.relative_path) w.files)

-- The folder is another one of the pair, and the file lies under it.
abbrev pub other_folder_has : ℕ → ℕ → TrackedFile → TrackedFolder → Bool
other_folder_has pair_id folder_id f d =
    (d.drive_pair_id == pair_id)
    && not (d.id == folder_id)
    && under_folder d.folder_path f.relative_path

unfoldable pub list_folder_origin_descendant_files :
    ℕ → FilePath → ℕ → Exec World (List TrackedFile)
list_folder_origin_descendant_files pair_id folder folder_id = gets (λ w.
    select
      (λ f.
        file_of_pair pair_id f
        && not f.tracked_direct
        && f.tracked_via_folder
        && under_folder folder f.relative_path
        && not (is_some (find (other_folder_has pair_id folder_id f) w.folders)))
      w.files)

-- What the three updates come to for a file of the pair.
abbrev pub provenance_of : List TrackedFolder → TrackedFile → TrackedFile
provenance_of folders f = record f {
  tracked_direct = f.tracked_direct || not (in_some_folder folders f);
  tracked_via_folder = not f.tracked_direct && in_some_folder folders f;
}

abbrev pub HasOneSource : TrackedFile → Type 0
HasOneSource f = f.tracked_direct ≡ not f.tracked_via_folder

abbrev step_one : ℕ → TrackedFile → TrackedFile
step_one pair_id f = if file_of_pair pair_id f then record f { tracked_via_folder = false } else f

abbrev step_two : ℕ → List TrackedFolder → TrackedFile → TrackedFile
step_two pair_id folders f =
    if file_of_pair pair_id f && not f.tracked_direct && in_some_folder folders f
    then record f { tracked_via_folder = true }
    else f

abbrev step_three : ℕ → TrackedFile → TrackedFile
step_three pair_id f =
    if file_of_pair pair_id f && not f.tracked_direct && not f.tracked_via_folder
    then record f { tracked_direct = true }
    else f

-- The three updates on one row.
recompute_row :
    (pair_id : ℕ) (folders : List TrackedFolder) (f : TrackedFile)
    → step_three pair_id (step_two pair_id folders (step_one pair_id f))
      ≡ (if file_of_pair pair_id f then provenance_of folders f else f)
unfolding in_some_folder
recompute_row pair_id folders f = ground arith

abbrev three_updates : ℕ → List TrackedFolder → List TrackedFile → List TrackedFile
three_updates pair_id folders l =
    update_where (λ f. file_of_pair pair_id f && not f.tracked_direct && not f.tracked_via_folder)
      (λ f. record f { tracked_direct = true })
      (update_where
        (λ f. file_of_pair pair_id f && not f.tracked_direct && in_some_folder folders f)
        (λ f. record f { tracked_via_folder = true })
        (update_where (file_of_pair pair_id) (λ f. record f { tracked_via_folder = false }) l))

recompute_rows :
    (pair_id : ℕ) (folders : List TrackedFolder) (l : List TrackedFile)
    → three_updates pair_id folders l
      ≡ update_where (file_of_pair pair_id) (provenance_of folders) l
recompute_rows pair_id folders [] = refl
recompute_rows pair_id folders (f ∷ fs) =
    ap (λ r. r ∷ three_updates pair_id folders fs) (recompute_row pair_id folders f)
    ∙ ap (λ r. (if file_of_pair pair_id f then provenance_of folders f else f) ∷ r)
        (recompute_rows pair_id folders fs)

-- Of no pair but the given one, or tracked in one way only.
abbrev pub IsSettled : ℕ → TrackedFile → Type 0
IsSettled pair_id f = (file_of_pair pair_id f ≡ false) ⊎ HasOneSource f

provenance_of-HasOneSource :
    (folders : List TrackedFolder) (f : TrackedFile) → HasOneSource (provenance_of folders f)
provenance_of-HasOneSource folders f = ground arith

every_row : (l : List TrackedFile) → All (λ f. Unit {0}) l
every_row [] = tt
every_row (f ∷ fs) = (tt, every_row fs)

-- The three updates of the sources of a pair's files come to one: a file that is tracked directly,
-- or that no folder's pattern matches, is tracked directly, and any other one through a folder. So
-- every file of the pair is tracked in exactly one of the two ways.
pub recompute_folder_provenance_for_drive_lem :
    (pair_id : ℕ) (w : World)
    → ((recompute_folder_provenance_for_drive pair_id w).1.files
        ≡ update_where (file_of_pair pair_id) (provenance_of w.folders) w.files)
      × All (IsSettled pair_id) (recompute_folder_provenance_for_drive pair_id w).1.files
unfolding recompute_folder_provenance_for_drive
recompute_folder_provenance_for_drive_lem pair_id w = (
  recompute_rows pair_id w.folders w.files,
  rw (recompute_rows pair_id w.folders w.files) (
      All-update_where (λ f. Unit {0}) (IsSettled pair_id) (file_of_pair pair_id)
        (provenance_of w.folders) (λ f _ _. inr (provenance_of-HasOneSource w.folders f))
        (λ f miss _. inl miss) w.files (every_row w.files)),
)
