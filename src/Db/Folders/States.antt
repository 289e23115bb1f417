-- ===== src/Db/Folders/States.antt =====
-- The folder operations against a state machine with one phase per folder.
use bitprotector.Db.Folders.Operations.{
  begin_delete, begin_mirror, begin_scan, end_all, end_delete, end_mirror, end_scan, is_busy,
  is_idle_folder, start_operation, clear_folder_delete, finish_folder_mirror, finish_folder_scan,
  reset_stale_folder_flags, start_folder_delete, start_folder_mirror, start_folder_scan,
}
use bitprotector.Db.Folders.{get_tracked_folder, folder_is}
use bitprotector.Base.{
  All, Bool, List, [], arith, false, if◌then◌else◌, map, not, refl, true, ℕ, ◌&&◌, ◌==◌, ◌∷◌, ◌≡◌,
}
use bitprotector.Db.World.{World}
use bitprotector.Db.Rows.{TrackedFolder}
use bitprotector.Base.Table.{update_where}

-- What is going on in a folder.
pub data Phase : Type 0 where
  resting under_scan under_mirror under_delete : Phase

-- The statements that set or clear the flags of a folder.
pub data FolderCall : Type 0 where
  scan_starts mirror_starts : ℕ → ℕ → FolderCall
  delete_starts scan_ends mirror_ends delete_ends : ℕ → FolderCall
  restarts : FolderCall

abbrev pub run_folder_call : FolderCall → World → World
run_folder_call (scan_starts id total) w = (start_folder_scan id total w).1
run_folder_call (mirror_starts id total) w = (start_folder_mirror id total w).1
run_folder_call (delete_starts id) w = (start_folder_delete id w).1
run_folder_call (scan_ends id) w = (finish_folder_scan id w).1
run_folder_call (mirror_ends id) w = (finish_folder_mirror id w).1
run_folder_call (delete_ends id) w = (clear_folder_delete id w).1
run_folder_call restarts w = (reset_stale_folder_flags w).1

-- The abstract machine: an operation starts in a resting folder, ends where it is under way, and a restart of the service ends all.
abbrev pub next_phase : FolderCall → ℕ → Phase → Phase
next_phase (scan_starts id total) key resting = if key == id then under_scan else resting
next_phase (mirror_starts id total) key resting = if key == id then under_mirror else resting
next_phase (delete_starts id) key resting = if key == id then under_delete else resting
next_phase (scan_ends id) key under_scan = if key == id then resting else under_scan
next_phase (mirror_ends id) key under_mirror = if key == id then resting else under_mirror
next_phase (delete_ends id) key under_delete = if key == id then resting else under_delete
next_phase restarts key p = resting
next_phase _ key p = p

abbrev pub phase_of : Bool → Bool → Bool → Phase
phase_of true _ _ = under_scan
phase_of false true _ = under_mirror
phase_of false false true = under_delete
phase_of false false false = resting

abbrev pub flags_exclude : Bool → Bool → Bool → Bool
flags_exclude true m d = not m && not d
flags_exclude false m d = not (m && d)

-- At most one of the flags of a folder is set.
abbrev pub IsExclusive : TrackedFolder → Type 0
IsExclusive d = flags_exclude d.scanning d.mirroring d.deleting ≡ true

abbrev pub phase_row : TrackedFolder → ℕ × Phase
phase_row d = (d.id, phase_of d.scanning d.mirroring d.deleting)

abbrev pub advance : FolderCall → ℕ × Phase → ℕ × Phase
advance c r = (r.0, next_phase c r.0 r.1)

-- The abstract view of the table: each folder's id and phase.
abbrev pub phases : World → List (ℕ × Phase)
phases w = map phase_row w.folders

-- What a statement does to one row.
abbrev Refines : FolderCall → TrackedFolder → TrackedFolder → Type 0
Refines c d d' = (phase_row d' ≡ advance c (phase_row d)) × IsExclusive d'

rows_refine :
    (c : FolderCall) (p : TrackedFolder → Bool) (f : TrackedFolder → TrackedFolder)
    → ((d : TrackedFolder) → IsExclusive d → Refines c d (if p d then f d else d))
    → (l : List TrackedFolder) → All IsExclusive l
    → (map phase_row (update_where p f l) ≡ map (advance c) (map phase_row l))
      × All IsExclusive (update_where p f l)
rows_refine c p f step [] h = (refl, tt)
rows_refine c p f step (d ∷ ds) h =
    let rest = rows_refine c p f step ds h.1 in
    (rw ((step d h.0).0, rest.0) refl, ((step d h.0).1, rest.1))

module _ (id total : ℕ) (d : TrackedFolder) (h : IsExclusive d) where
  -- The statements that start an operation, and those that end one, on a row.
  scan_start :
      Refines (scan_starts id total) d (if is_idle_folder id d then begin_scan total d else d)
  scan_start = ground arith

  mirror_start :
      Refines (mirror_starts id total) d (if is_idle_folder id d then begin_mirror total d else d)
  mirror_start = ground arith

  delete_start : Refines (delete_starts id) d (if is_idle_folder id d then begin_delete d else d)
  delete_start = ground arith

  scan_end : Refines (scan_ends id) d (if folder_is id d then end_scan d else d)
  scan_end = ground arith

  mirror_end : Refines (mirror_ends id) d (if folder_is id d then end_mirror total d else d)
  mirror_end = ground arith

  delete_end : Refines (delete_ends id) d (if folder_is id d then end_delete d else d)
  delete_end = ground arith

  restart : Refines restarts d (if is_busy d then end_all d else d)
  restart = ground arith

-- The claim of an operation writes the idle row, whether or not there is one.
start_operation_folders :
    (id : ℕ) (f : TrackedFolder → TrackedFolder) (w : World)
    → (start_operation id f w).1.folders ≡ update_where (is_idle_folder id) f w.folders
unfolding start_operation get_tracked_folder
start_operation_folders id f w = ground arith

get_tracked_folder_world : (id : ℕ) (w : World) → (get_tracked_folder id w).1 ≡ w
unfolding get_tracked_folder
get_tracked_folder_world id w = ground arith

-- Every statement on the flags of the folders does to the phases what the machine does, each
-- folder for itself, and leaves at most one flag set in each folder, if that held before.
pub run_folder_call-refines :
    (c : FolderCall) (w : World)
    → All IsExclusive w.folders
    → (phases (run_folder_call c w) ≡ map (advance c) (phases w))
      × All IsExclusive (run_folder_call c w).folders
unfolding start_folder_scan start_folder_mirror start_folder_delete finish_folder_scan
    finish_folder_mirror clear_folder_delete reset_stale_folder_flags
run_folder_call-refines (scan_starts id total) w h =
    rw (start_operation_folders id (begin_scan total) w) (
      rows_refine (scan_starts id total) (is_idle_folder id) (begin_scan total)
        (scan_start id total) w.folders h)
run_folder_call-refines (mirror_starts id total) w h =
    rw (start_operation_folders id (begin_mirror total) w) (
      rows_refine (mirror_starts id total) (is_idle_folder id) (begin_mirror total)
        (mirror_start id total) w.folders h)
run_folder_call-refines (delete_starts id) w h = rw (start_operation_folders id begin_delete w) (
    rows_refine (delete_starts id) (is_idle_folder id) begin_delete (delete_start id 0) w.folders h)
run_folder_call-refines (scan_ends id) w h =
    rw
      (get_tracked_folder_world id
        (record w { folders = update_where (folder_is id) end_scan w.folders }))
      (rows_refine (scan_ends id) (folder_is id) end_scan (scan_end id 0) w.folders h)
run_folder_call-refines (mirror_ends id) w h =
    rw
      (get_tracked_folder_world id
        (record w { folders = update_where (folder_is id) (end_mirror w.now) w.folders }))
      (rows_refine (mirror_ends id) (folder_is id) (end_mirror w.now) (mirror_end id w.now)
        w.folders h)
run_folder_call-refines (delete_ends id) w h =
    rows_refine (delete_ends id) (folder_is id) end_delete (delete_end id 0) w.folders h
run_folder_call-refines restarts w h =
    rows_refine restarts is_busy end_all (restart 0 0) w.folders h
