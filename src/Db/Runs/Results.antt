-- ===== src/Db/Runs/Results.antt =====
-- db/repository.rs: the statements on integrity_run_results, and the order in which a run takes
-- the files.
use bitprotector.Base.{
  drop, take, ◌%◌, ◌*◌, ◌-◌, Bool, Exec, List, Option, Text, [], false, foreign_key_failed, gets,
  if◌then◌else◌, is_some, leb, length, ltb, modify, none, not, or_raise, raise_if, row_not_found,
  some, true, ℕ, ◌&&◌, ◌++◌, ◌+◌, ◌==◌, ◌>>=◌, ◌>>◌, ◌||◌, ◌∷◌,
}
use bitprotector.Fs.{FilePath}
use bitprotector.Db.World.{World}
use bitprotector.Db.RunRows.{IntegrityRun, IntegrityRunResult}
use bitprotector.Db.Rows.{TrackedFile}
use bitprotector.Db.Pairs.{pair_is}
use bitprotector.Db.Listing.{when_given}
use bitprotector.Db.Files.{file_is}
use bitprotector.Base.Table.{find, select}
use bitprotector.Base.Paging.{page_of}

-- The result refers to its run, its file and its drive pair.
unfoldable pub append_integrity_run_result :
    ℕ → ℕ → ℕ → FilePath → Text → Bool → Bool → Exec World IntegrityRunResult
append_integrity_run_result run_id file_id pair_id path status recovered needs_attention = do
  known ← gets (λ w.
      is_some (find (λ (r : IntegrityRun). r.id == run_id) w.runs)
      && is_some (find (file_is file_id) w.files)
      && is_some (find (pair_is pair_id) w.pairs))
  raise_if (not known) foreign_key_failed
  id ← gets (λ w. w.next_result_id)
  modify (λ w. record w {
    run_results =
        w.run_results
        ++ record {
          id = id;
          run_id = run_id;
          file_id = file_id;
          drive_pair_id = pair_id;
          relative_path = path;
          status = status;
          recovered = recovered;
          needs_attention = needs_attention;
          checked_at = w.now;
        }
          ∷ [];
    next_result_id = id + 1;
  })
  found ← gets (λ w. find (λ (r : IntegrityRunResult). r.id == id) w.run_results)
  or_raise found row_not_found

-- page.max(1) and per_page.clamp(1, 200)
abbrev pub at_least_one : ℕ → ℕ
at_least_one n = if leb 1 n then n else 1

abbrev pub clamp : ℕ → ℕ
clamp per_page = if leb per_page 200 then at_least_one per_page else 200

abbrev pub shown_result : ℕ → Bool → IntegrityRunResult → Bool
shown_result run_id issues_only r = (r.run_id == run_id) && (not issues_only || r.needs_attention)

-- `(page - 1) * per_page` as an i64 that wraps around; SQLite takes a negative OFFSET as none.
abbrev pub offset_of : ℕ → ℕ
offset_of n =
    if ltb (n % 18_446_744_073_709_551_616) 9_223_372_036_854_775_808
    then n % 18_446_744_073_709_551_616
    else 0

-- The rows of a page that a request names.
unfoldable pub requested_page : {A : Type 0} → ℕ → ℕ → List A → List A
requested_page page per_page rows = take per_page (drop (offset_of ((page - 1) * per_page)) rows)

unfoldable pub list_integrity_run_results :
    ℕ → Bool → ℕ → ℕ → Exec World (List IntegrityRunResult × ℕ)
list_integrity_run_results run_id issues_only page per_page = gets (λ w.
    let rows = select (shown_result run_id issues_only) w.run_results in
    (requested_page (at_least_one page) (clamp per_page) rows, length rows))

-- last_integrity_check_at ASC, where NULL comes first. The query does not say in which order
-- files with the same time come; here it is that of their ids.
abbrev pub checked_before : Option ℕ → Option ℕ → Bool
checked_before a none = false
checked_before none (some b) = true
checked_before (some a) (some b) = ltb a b

unfoldable pub insert_by_check : TrackedFile → List TrackedFile → List TrackedFile
insert_by_check f [] = f ∷ []
insert_by_check f (g ∷ gs) =
    let rest = insert_by_check f gs in
    if checked_before g.last_integrity_check_at f.last_integrity_check_at
    then g ∷ rest
    else f ∷ g ∷ gs

unfoldable pub sort_by_check : List TrackedFile → List TrackedFile
sort_by_check [] = []
sort_by_check (f ∷ fs) = insert_by_check f (sort_by_check fs)

unfoldable pub list_tracked_files_oldest_integrity_first :
    Option ℕ → ℕ → ℕ → Exec World (List TrackedFile × ℕ)
list_tracked_files_oldest_integrity_first pair_id page per_page = gets (λ w.
    let rows =
      select (λ (f : TrackedFile). when_given pair_id (λ id. f.drive_pair_id == id)) w.files in
    (page_of page per_page (sort_by_check rows), length rows))
