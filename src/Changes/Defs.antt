-- ===== src/Changes/Defs.antt =====
-- core/change_detection.rs: detect_change, scan_all_changes and scan_and_record_changes.
use bitprotector.SyncQueue.Drain.{listed}
use bitprotector.SyncQueue.Create.{create_from_change}
use bitprotector.Fs.{FilePath, Fs, content, exists, join}
use bitprotector.Drive.Pair.{active_path, standby_accepts_sync}
use bitprotector.Db.World.{World, in_fs, log_event}
use bitprotector.Db.Rows.{DrivePair, TrackedFile, change_detected}
use bitprotector.Db.Queue.Dedup.{stored}
use bitprotector.Db.Listing.{list_tracked_files}
use bitprotector.Db.Files.{update_tracked_file_checksum, update_tracked_file_mirror_status}
use bitprotector.Checksum.Hasher.{Blake3}
use bitprotector.Checksum.{checksum_file, streaming}
use bitprotector.Base.{
  Exec, List, Option, Text, [], false, gets, if◌then◌else◌, ignore, leb, length, none, not, pure,
  raise_if, some, source_missing, suc, text_eq, zero, ◌*◌, ◌++◌, ◌+◌, ◌==◌, ◌>>=◌, ◌>>◌, ◌∷◌, ℕ,
}

-- A tracked file whose content has another hash than the stored one, with the new hash.
abbrev pub Change : Type 0
Change = TrackedFile × Text

-- changes.push if the file has changed
abbrev pub push_change : TrackedFile → Option Text → List Change → List Change
push_change file none changes = changes
push_change file (some sum) changes = changes ++ (file, sum) ∷ []

abbrev pub scan_page_size : ℕ
scan_page_size = 200

module _ (b3 : Blake3) where
  unfoldable pub detect_change : FilePath → FilePath → Text → Exec Fs (Option Text)
  detect_change root relative stored = do
    present ← gets (λ fs. exists fs (join root relative))
    if not present then pure none else do
      current ← checksum_file b3 (join root relative) streaming
      pure (if text_eq current stored then none else some current)

  -- `for file in files`
  unfoldable pub scan_files : FilePath → List TrackedFile → List Change → Exec World (List Change)
  scan_files root [] changes = pure changes
  scan_files root (f ∷ fs) changes = do
    changed ← in_fs (detect_change root f.relative_path f.checksum)
    scan_files root fs (push_change f changed changes)

  -- The loop over the pages, on fuel; `none` where it still runs when the fuel is spent.
  unfoldable pub scan_pages : DrivePair → ℕ → ℕ → List Change → Exec World (Option (List Change))
  scan_pages pair zero page changes = pure none
  scan_pages pair (suc fuel) page changes = do
    listed ← list_tracked_files (some pair.id) none none page scan_page_size
    if length listed.0 == 0 then pure (some changes) else do
      more ← scan_files (active_path pair) listed.0 changes
      if leb listed.1 (page * scan_page_size)
          then pure (some more)
          else scan_pages pair fuel (page + 1) more

  -- A page of files takes one unit of fuel, so that their number and one are enough.
  unfoldable pub scan_all_changes : DrivePair → Exec World (Option (List Change))
  scan_all_changes pair = do fuel ← gets (λ w. suc (length w.files)); scan_pages pair fuel 1 []

  -- `for (file, new_hash) in &changes`
  unfoldable pub record_changes : DrivePair → List Change → Exec World (Unit {0})
  record_changes pair [] = pure tt
  record_changes pair ((file, sum) ∷ rest) = do
    is_there ← gets (λ w. exists w.fs (join (active_path pair) file.relative_path))
    raise_if (not is_there) source_missing
    size ← gets (λ w. length (content w.fs (join (active_path pair) file.relative_path)))
    update_tracked_file_checksum file.id sum size
    update_tracked_file_mirror_status file.id false
    ignore (log_event change_detected (some file.id))
    accepts ← gets (λ w. standby_accepts_sync w.fs pair)
    if accepts then (do create_from_change file.id; pure tt) else pure tt
    record_changes pair rest

  abbrev pub recorded : DrivePair → Option (List Change) → Exec World (Option (List Change))
  recorded pair none = pure none
  recorded pair (some changes) = do record_changes pair changes; pure (some changes)

  unfoldable pub scan_and_record_changes : DrivePair → Exec World (Option (List Change))
  scan_and_record_changes pair = do changes ← scan_all_changes pair; recorded pair changes
