-- ===== src/Tests/Runs.antt =====
-- The theorems on the integrity runs, the folders and the scans at the small world.
use bitprotector.Runs.Single.{
  new_run, has_ended, run_sync-IsCounted, run_sync-Resting, start_run-start_run,
}
use bitprotector.Db.Rows.{active, TrackedFile, TrackedFolder}
use bitprotector.Db.Runs.Order.{IsCheckedAt, IsUnchecked, oldest_second_page}
use bitprotector.Runs.Frame.{IsCounted, Resting}
use bitprotector.Runs.{Interval, run_sync, start_run}
use bitprotector.Db.World.{World}
use bitprotector.Db.Runs.Results.{
  clamp, list_integrity_run_results, list_tracked_files_oldest_integrity_first, shown_result,
}
use bitprotector.Db.Runs.Pages.{list_integrity_run_results-pages, pages_to, rows_or_none}
use bitprotector.Db.Runs.{
  create_integrity_run, get_active_integrity_run, get_integrity_run, newest_run,
}
use bitprotector.Db.Listing.{count_tracked_files}
use bitprotector.Db.Folders.States.{
  IsExclusive, advance, mirror_ends, phases, run_folder_call, run_folder_call-refines,
}
use bitprotector.Db.Folders.Operations.{end_all, reset_stale_folder_flags}
use bitprotector.Db.Folders.Exclusion.{
  delete_of, row_start, scan_of, start_folder, start_folder-reset_stale_folder_flags,
  start_folder-start_folder,
}
use bitprotector.Checksum.{ChecksumConfig}
use bitprotector.Changes.Paging.{scan_all_changes-eq-scan_at_once, scan_at_once}
use bitprotector.Changes.Defs.{scan_all_changes}
use bitprotector.Base.Table.{select}
use bitprotector.Base.{
  All, List, [], arith, drop, err, false, folder_busy, length, map, none, ok, refl, run_active,
  some, suc, take, text, true, zero, ℕ, ◌*◌, ◌++◌, ◌+◌, ◌-◌, ◌∷◌, ◌≡◌, ◌≤◌,
}
use bitprotector.Tests.Data.{toy, small_fs, pair_with, tracked, world_with}

abbrev quiet_world : World
quiet_world = world_with active small_fs

abbrev small_cfg : ChecksumConfig
small_cfg = record { hdd_max_parallel = 2; ssd_max_parallel = 0; resolved_ssd_parallel = 4 }

scan_all_changes-eq-scan_at_once_example :
    scan_all_changes toy (pair_with active) quiet_world
    ≡ scan_at_once toy (pair_with active) quiet_world
scan_all_changes-eq-scan_at_once_example =
    scan_all_changes-eq-scan_at_once toy (pair_with active) quiet_world

-- One interval in which a minute passes and a user asks the run to stop.
abbrev asked : List Interval
asked = record { seconds = 60; asks_stop = true } ∷ []

run_sync-Resting_example :
    (has_ended
        (run_sync toy 1024 small_cfg
          (λ n. true)
          (some 1)
          true
          (text "api")
          none
          asked
          quiet_world).0
      ≡ true)
    × Resting
        (run_sync toy 1024 small_cfg
          (λ n. true)
          (some 1)
          true
          (text "api")
          none
          asked
          quiet_world).1
run_sync-Resting_example =
    run_sync-Resting (some 1) true (text "api") toy 1024 small_cfg (λ n. true) none asked
      quiet_world tt

run_sync-IsCounted_example :
    All IsCounted
      (run_sync toy 1024 small_cfg
        (λ n. true)
        none
        false
        (text "cli")
        (some 2000)
        []
        quiet_world).1.runs
run_sync-IsCounted_example =
    run_sync-IsCounted none false (text "cli") toy 1024 small_cfg (λ n. true) (some 2000) []
      quiet_world tt

start_run-start_run_example :
    start_run none true (text "scheduler") (start_run (some 1) false (text "api") quiet_world).1
    ≡ (err run_active, (start_run (some 1) false (text "api") quiet_world).1)
unfolding start_run create_integrity_run get_integrity_run get_active_integrity_run
    count_tracked_files newest_run
start_run-start_run_example =
    start_run-start_run (some 1) false (text "api") none true (text "scheduler") quiet_world
      (new_run (some 1) false (text "api") 1 quiet_world) refl

list_integrity_run_results-pages_example :
    (pages_to 1 true 500 2 quiet_world
      ≡ take (2 * clamp 500) (select (shown_result 1 true) quiet_world.run_results))
    × (length (rows_or_none (list_integrity_run_results 1 true 2 500 quiet_world).0) ≤ 200)
list_integrity_run_results-pages_example =
    list_integrity_run_results-pages 1 true 500 2 quiet_world (omega arith)

-- As many files as wanted, numbered from the first.
abbrev copies : ℕ → ℕ → TrackedFile → List TrackedFile
copies number zero f = []
copies number (suc k) f =
    record f { id = number; relative_path = number ∷ [] } ∷ copies (number + 1) k f

copies-IsUnchecked : (n k : ℕ) (f : TrackedFile) → IsUnchecked f → All IsUnchecked (copies n k f)
copies-IsUnchecked n zero f h = tt
copies-IsUnchecked n (suc k) f h = (h, copies-IsUnchecked (n + 1) k f h)

copies-IsCheckedAt :
    (n k : ℕ) (f : TrackedFile) → IsCheckedAt 1000 f → All (IsCheckedAt 1000) (copies n k f)
copies-IsCheckedAt n zero f h = tt
copies-IsCheckedAt n (suc k) f h = (h, copies-IsCheckedAt (n + 1) k f h)

abbrev checked_file : TrackedFile
checked_file = record tracked { last_integrity_check_at = some 1000 }

abbrev half_checked : World
half_checked = record quiet_world { files = copies 0 100 checked_file ++ copies 100 40 tracked }

oldest_second_page_example :
    (list_tracked_files_oldest_integrity_first (some 1) 2 100 half_checked).0
    ≡ ok (
      drop (100 - length (copies 100 40 tracked)) (copies 0 100 checked_file),
      100 + length (copies 100 40 tracked),
    )
oldest_second_page_example =
    oldest_second_page 1 1000 (copies 0 100 checked_file) (copies 100 40 tracked) half_checked refl
      (copies-IsCheckedAt 0 100 checked_file refl) (copies-IsUnchecked 100 40 tracked refl) refl
      (omega arith)

-- A folder whose mirroring is under way.
abbrev busy_folder : TrackedFolder
busy_folder = record {
  id = 3;
  drive_pair_id = 1;
  folder_path = text "docs";
  virtual_path = none;
  include_checksum_sidecars = false;
  scanning = false;
  scan_scanned_files = 0;
  scan_total_files = 0;
  mirroring = true;
  deleting = false;
  mirror_mirrored_files = 0;
  mirror_total_files = 4;
  last_scanned_at = none;
  last_mirrored_at = none;
}

abbrev foldered : World
foldered = record quiet_world { folders = busy_folder ∷ [] }

run_folder_call-refines_example :
    (phases (run_folder_call (mirror_ends 3) foldered)
      ≡ map (advance (mirror_ends 3)) (phases foldered))
    × All IsExclusive (run_folder_call (mirror_ends 3) foldered).folders
run_folder_call-refines_example = run_folder_call-refines (mirror_ends 3) foldered (refl, tt)

start_folder-start_folder_example :
    start_folder delete_of 3 (start_folder (scan_of 7) 3 foldered).1
    ≡ (err folder_busy, (start_folder (scan_of 7) 3 foldered).1)
start_folder-start_folder_example = start_folder-start_folder (scan_of 7) delete_of 3 foldered

start_folder-reset_stale_folder_flags_example :
    (start_folder delete_of 3 (reset_stale_folder_flags foldered).1).0
    ≡ ok (row_start delete_of (end_all busy_folder))
start_folder-reset_stale_folder_flags_example =
    start_folder-reset_stale_folder_flags delete_of 3 busy_folder foldered refl
