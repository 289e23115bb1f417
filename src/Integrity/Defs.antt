-- ===== src/Integrity/Defs.antt =====
-- core/integrity.rs, in the order of the file.
use bitprotector.Base.{
  ℕ, Bool, true, false, not, ◌&&◌, Option, none, some, ltb, if◌then◌else◌, is_some, Text, option_eq,
  Result, ok, err, Exec, pure, raise, gets, ignore, ◌>>=◌, ◌>>◌,
}
use bitprotector.Fs.{FilePath, Fs, exists, join}
use bitprotector.Checksum.{ChecksumStrategy, checksum_file}
use bitprotector.Checksum.Hasher.{Blake3}
use bitprotector.Db.Rows.{
  DrivePair, DriveRole, primary, secondary, active, state_eq, TrackedFile, recovery_success,
  recovery_fail, sync_completed,
}
use bitprotector.Db.World.{World, in_fs, log_event}
use bitprotector.Db.Files.{update_tracked_file_mirror_status}
use bitprotector.Db.Queue.{complete_pending_mirror_queue_for_file}
use bitprotector.Drive.Pair.{path_is_available, is_degraded}
use bitprotector.Mirror.{restore_from_mirror, restore_mirror_from_master}

pub data IntegrityStatus : Type 0 where
  intact master_corrupted mirror_corrupted both_corrupted : IntegrityStatus
  mirror_missing master_missing primary_drive_unavailable secondary_drive_unavailable :
      IntegrityStatus

pub record IntegrityCheckResult : Type 0 where
  pub file_id : ℕ
  pub stored_checksum : Text
  pub master_checksum : Option Text
  pub mirror_checksum : Option Text
  pub master_valid : Bool
  pub mirror_valid : Bool
  pub status : IntegrityStatus

abbrev pub is_intact : IntegrityStatus → Bool
is_intact intact = true
is_intact _ = false

-- The two matches on what was found.
unfoldable pub degraded_status : DriveRole → Bool → Bool → IntegrityStatus
degraded_status primary master_valid mirror_valid = if master_valid then intact else both_corrupted
degraded_status secondary master_valid mirror_valid =
    if mirror_valid then intact else both_corrupted

unfoldable pub mirrored_status : Bool → Bool → Bool → Bool → IntegrityStatus
mirrored_status false _ _ _ = master_missing
mirrored_status true false _ _ = mirror_missing
mirrored_status true true true true = intact
mirrored_status true true false true = master_corrupted
mirrored_status true true true false = mirror_corrupted
mirrored_status true true false false = both_corrupted

abbrev unavailable : TrackedFile → IntegrityStatus → IntegrityCheckResult
unavailable file status = record {
  file_id = file.id;
  stored_checksum = file.checksum;
  master_checksum = none;
  mirror_checksum = none;
  master_valid = false;
  mirror_valid = false;
  status = status;
}

module _ (b3 : Blake3) where
  -- `if root_available && path.exists() { Some(checksum_file(..)) } else { None }`, transposed
  unfoldable pub checksum_if_present : Bool → FilePath → ChecksumStrategy → Exec Fs (Option Text)
  checksum_if_present available path strategy fs =
      if available && exists fs path
      then (do sum ← checksum_file b3 path strategy; pure (some sum)) fs
      else (ok none, fs)

  unfoldable pub check_file_integrity :
      DrivePair → TrackedFile → ChecksumStrategy → ChecksumStrategy → Exec Fs IntegrityCheckResult
  check_file_integrity pair file master_strategy mirror_strategy = do
    primary_available ← gets (λ fs. path_is_available fs pair.primary_path)
    secondary_available ← gets (λ fs. path_is_available fs pair.secondary_path)
    if state_eq pair.primary_state active && not primary_available
        then pure (unavailable file primary_drive_unavailable)
        else if state_eq pair.secondary_state active && not secondary_available
        then pure (unavailable file secondary_drive_unavailable)
        else do
          master ←
              checksum_if_present primary_available (join pair.primary_path file.relative_path)
                master_strategy
          mirror ←
              checksum_if_present secondary_available (join pair.secondary_path file.relative_path)
                mirror_strategy
          pure (record {
            file_id = file.id;
            stored_checksum = file.checksum;
            master_checksum = master;
            mirror_checksum = mirror;
            master_valid = option_eq master (some file.checksum);
            mirror_valid = option_eq mirror (some file.checksum);
            status =
                if is_degraded pair
                then degraded_status pair.active_role (option_eq master (some file.checksum))
                    (option_eq mirror (some file.checksum))
                else mirrored_status (is_some master) (is_some mirror)
                    (option_eq master (some file.checksum)) (option_eq mirror (some file.checksum));
          })

  -- The match of attempt_recovery on the status.
  unfoldable pub recover_by_status : DrivePair → TrackedFile → IntegrityStatus → Exec Fs Bool
  recover_by_status pair file master_corrupted = do
    restore_from_mirror b3 pair file.relative_path file.checksum
    pure true
  recover_by_status pair file mirror_corrupted = do
    restore_mirror_from_master b3 pair file.relative_path file.checksum
    pure true
  recover_by_status pair file mirror_missing = do
    restore_mirror_from_master b3 pair file.relative_path file.checksum
    pure true
  recover_by_status pair file _ = pure false

  unfoldable pub attempt_recovery : DrivePair → TrackedFile → IntegrityCheckResult → Exec Fs Bool
  attempt_recovery pair file result =
      if is_degraded pair then pure false else recover_by_status pair file result.status

  -- What follows a recovery: on success the queue and the mirror flag are brought in line.
  unfoldable pub reconcile : TrackedFile → Result Bool → Exec World Bool
  reconcile file (ok true) = do
    update_tracked_file_mirror_status file.id true
    reconciled ← complete_pending_mirror_queue_for_file file.id
    ignore (log_event recovery_success (some file.id))
    if ltb 0 reconciled then ignore (log_event sync_completed (some file.id)) else pure tt
    pure true
  reconcile file (ok false) = do ignore (log_event recovery_fail (some file.id)); pure false
  reconcile file (err e) = do ignore (log_event recovery_fail (some file.id)); raise e

  unfoldable pub attempt_recovery_with_reconciliation :
      DrivePair → TrackedFile → IntegrityCheckResult → Exec World Bool
  attempt_recovery_with_reconciliation pair file result w =
      let (r, w') = in_fs (attempt_recovery pair file result) w in reconcile file r w'
