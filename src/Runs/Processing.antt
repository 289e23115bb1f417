-- ===== src/Runs/Processing.antt =====
-- The processing of the files of a page goes on in the same way.
use bitprotector.Db.Rows.{DrivePair, EventType, TrackedFile}
use bitprotector.Db.Queue.{open_mirror_item, complete_pending_mirror_queue_for_file}
use bitprotector.Base.Table.{count_where}
use bitprotector.Base.{
  Bool-cases, inl, inr, if◌then◌else◌, ltb, pure, Bool, List, Option, Result, Text, [], arith, err,
  false, not, ok, text, true, ℕ, ◌&&◌, ◌+◌, ◌∷◌, ◌≤◌,
}
use bitprotector.Runs.Defs.{
  status_str, as_count, log_status, process_result, process_results, recover_file, store_result,
}
use bitprotector.Integrity.{
  attempt_recovery, is_intact, master_corrupted, master_missing, mirror_corrupted, mirror_missing,
  primary_drive_unavailable, secondary_drive_unavailable, IntegrityCheckResult, IntegrityStatus,
  attempt_recovery_with_reconciliation, intact, reconcile,
}
use bitprotector.Runs.Frame.{
  Going, append_integrity_run_result-Keeps, increment_integrity_run_progress-Keeps,
  update_tracked_file_last_integrity_check_at-Keeps, update_tracked_file_mirror_status-Keeps,
}
use bitprotector.Db.World.{log_event}
use bitprotector.Db.Runs.Results.{append_integrity_run_result}
use bitprotector.Db.Files.{
  update_tracked_file_last_integrity_check_at, update_tracked_file_mirror_status,
}
use bitprotector.Checksum.Hasher.{Blake3}
use bitprotector.Base.Keeping.{Keeps, then-Keeps}

module _ (run_id n : ℕ) where
  store_result-Keeps :
      (file : TrackedFile) (status : Text) (recovered needs_attention : Bool)
      → as_count needs_attention + as_count recovered ≤ 1
      → Keeps (Going run_id n) (store_result run_id file status recovered needs_attention)
  unfolding store_result
  store_result-Keeps file status recovered needs_attention le =
      then-Keeps (Going run_id n) (update_tracked_file_last_integrity_check_at file.id) _
        (update_tracked_file_last_integrity_check_at-Keeps run_id n file.id)
        λ _.
          then-Keeps (Going run_id n)
            (append_integrity_run_result run_id file.id file.drive_pair_id file.relative_path status
              recovered needs_attention)
            _
            (append_integrity_run_result-Keeps run_id n file.id file.drive_pair_id
              file.relative_path status recovered needs_attention)
            λ _.
              increment_integrity_run_progress-Keeps run_id n (as_count needs_attention)
                (as_count recovered) le

  log_event-Keeps : (t : EventType) (f : Option ℕ) → Keeps (Going run_id n) (log_event t f)
  unfolding log_event
  log_event-Keeps t f w g = g

  log_status-Keeps :
      (id : ℕ) (status : IntegrityStatus) → Keeps (Going run_id n) (log_status id status)
  unfolding log_event
  log_status-Keeps id intact w g = g
  log_status-Keeps id master_corrupted w g = g
  log_status-Keeps id mirror_corrupted w g = g
  log_status-Keeps id IntegrityStatus.both_corrupted w g = g
  log_status-Keeps id mirror_missing w g = g
  log_status-Keeps id master_missing w g = g
  log_status-Keeps id primary_drive_unavailable w g = g
  log_status-Keeps id secondary_drive_unavailable w g = g

  reconcile-Keeps :
      (b3 : Blake3) (file : TrackedFile) (r : Result Bool)
      → Keeps (Going run_id n) (reconcile b3 file r)
  unfolding reconcile log_event complete_pending_mirror_queue_for_file
      update_tracked_file_mirror_status
  reconcile-Keeps b3 file (ok true) w g =
      elim (Bool-cases (ltb 0 (count_where (open_mirror_item file.id) w.queue))) [
        | inl some_closed ↦
            rw some_closed (update_tracked_file_mirror_status-Keeps run_id n file.id true w g)
        | inr none_closed ↦
            rw none_closed (update_tracked_file_mirror_status-Keeps run_id n file.id true w g)
      ]
  reconcile-Keeps b3 file (ok false) w g = g
  reconcile-Keeps b3 file (err e) w g = g

  recover_file-Keeps :
      (b3 : Blake3) (pair : DrivePair) (file : TrackedFile) (result : IntegrityCheckResult)
      → Keeps (Going run_id n) (recover_file b3 pair file result)
  unfolding recover_file attempt_recovery_with_reconciliation
  recover_file-Keeps b3 pair file result w g =
      reconcile-Keeps b3 file (attempt_recovery b3 pair file result w.fs).0
        (record w { fs = (attempt_recovery b3 pair file result w.fs).1 }) g

  counts_once :
      (whole recovered : Bool) → as_count (not whole && not recovered) + as_count recovered ≤ 1
  counts_once whole recovered = ground arith

  recovery-Keeps :
      (b : Bool) (b3 : Blake3) (pair : DrivePair) (file : TrackedFile)
      (result : IntegrityCheckResult)
      → Keeps (Going run_id n) (if b then recover_file b3 pair file result else pure false)
  recovery-Keeps true b3 pair file result w g = recover_file-Keeps b3 pair file result w g
  recovery-Keeps false b3 pair file result w g = g

  process_result-Keeps :
      (b3 : Blake3) (recover : Bool) (pair : DrivePair) (file : TrackedFile)
      (r : Result IntegrityCheckResult)
      → Keeps (Going run_id n) (process_result b3 run_id recover pair file r)
  unfolding process_result
  process_result-Keeps b3 recover pair file (err e) =
      store_result-Keeps file (text "internal_error") false true (omega arith)
  process_result-Keeps b3 recover pair file (ok result) =
      then-Keeps (Going run_id n) _ _
        (recovery-Keeps (recover && not (is_intact result.status)) b3 pair file result)
        λ recovered.
          then-Keeps (Going run_id n) (log_status file.id result.status) _
            (log_status-Keeps file.id result.status)
            λ _.
              store_result-Keeps file (status_str result.status) recovered
                (not (is_intact result.status) && not recovered)
                (counts_once (is_intact result.status) recovered)

  pub process_results-Keeps :
      (b3 : Blake3) (recover : Bool) (pair : DrivePair)
      (l : List (TrackedFile × Result IntegrityCheckResult))
      → Keeps (Going run_id n) (process_results b3 run_id recover pair l)
  unfolding process_results
  process_results-Keeps b3 recover pair [] w g = g
  process_results-Keeps b3 recover pair ((file, r) ∷ rest) w g =
      then-Keeps (Going run_id n) (process_result b3 run_id recover pair file r) _
        (process_result-Keeps b3 recover pair file r)
        (λ _. process_results-Keeps b3 recover pair rest) w g
