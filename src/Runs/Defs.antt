-- ===== src/Runs/Defs.antt =====
-- core/integrity_runs.rs, in the order of the file.
use bitprotector.Db.Rows.{
  EventType, DrivePair, TrackedFile, failed_with, integrity_fail, integrity_run_completed,
  integrity_run_started,
}
use bitprotector.SyncQueue.Drain.{listed, past_deadline}
use bitprotector.Integrity.{
  IntegrityCheckResult, IntegrityStatus, attempt_recovery_with_reconciliation, check_file_integrity,
  intact, is_intact, master_corrupted, master_missing, mirror_corrupted, mirror_missing,
  primary_drive_unavailable, secondary_drive_unavailable,
}
use bitprotector.Db.World.{World, log_event}
use bitprotector.Db.Runs.Results.{
  append_integrity_run_result, at_least_one, list_tracked_files_oldest_integrity_first,
}
use bitprotector.Db.Runs.{
  create_integrity_run, finish_integrity_run, get_active_integrity_run, get_integrity_run,
  increment_integrity_run_progress, request_integrity_run_stop, set_integrity_run_active_workers,
}
use bitprotector.Db.RunRows.{IntegrityRun, RunStatus}
use bitprotector.Db.Pairs.{get_drive_pair}
use bitprotector.Db.Listing.{count_tracked_files}
use bitprotector.Db.Files.{update_tracked_file_last_integrity_check_at}
use bitprotector.Checksum.Hasher.{Blake3}
use bitprotector.Checksum.{ChecksumConfig, for_drive, pool_size_for_pair}
use bitprotector.Base.{
  Bool, Exec, List, Option, Result, Text, [], err, false, gets, if◌then◌else◌, ignore, is_some, leb,
  length, modify, none, not, ok, pure, raise, raise_if, run_active, some, suc, text, true, zero, ℕ,
  ◌&&◌, ◌*◌, ◌+◌, ◌==◌, ◌>>=◌, ◌>>◌, ◌||◌, ◌∷◌,
}

-- status_str
unfoldable pub status_str : IntegrityStatus → Text
status_str intact = text "ok"
status_str master_corrupted = text "master_corrupted"
status_str mirror_corrupted = text "mirror_corrupted"
status_str IntegrityStatus.both_corrupted = text "both_corrupted"
status_str mirror_missing = text "mirror_missing"
status_str master_missing = text "master_missing"
status_str primary_drive_unavailable = text "primary_drive_unavailable"
status_str secondary_drive_unavailable = text "secondary_drive_unavailable"

-- What happens beside a run, between two of its pages: time passes, and a user may ask it to stop.
pub record Interval : Type 0 where
  pub seconds : ℕ
  pub asks_stop : Bool

unfoldable pub elapse : ℕ → Interval → World → World
elapse run_id i w =
    let later = record w { now = w.now + i.seconds } in
    if i.asks_stop then (request_integrity_run_stop run_id later).1 else later

abbrev pub elapse_first : ℕ → List Interval → World → World
elapse_first run_id [] w = w
elapse_first run_id (i ∷ is) w = elapse run_id i w

abbrev pub rest_of : List Interval → List Interval
rest_of [] = []
rest_of (i ∷ is) = is

-- The check and the row that the two kinds of run begin with.
unfoldable pub start_run : Option ℕ → Bool → Text → Exec World IntegrityRun
start_run scope recover trigger = do
  other ← get_active_integrity_run
  raise_if (is_some other) run_active
  total_files ← count_tracked_files scope
  create_integrity_run scope recover trigger total_files

abbrev pub stop_run : ℕ → Exec World Bool
stop_run run_id = do
  set_integrity_run_active_workers run_id 0
  finish_integrity_run run_id RunStatus.stopped none
  pure true

unfoldable pub check_should_stop : ℕ → Option ℕ → Exec World Bool
check_should_stop run_id deadline = do
  current ← get_integrity_run run_id
  due ← gets (past_deadline deadline)
  if current.stop_requested || due then stop_run run_id else pure false

abbrev pub run_page_size : ℕ
run_page_size = 100

-- unwrap_or(false)
abbrev pub or_false : Result Bool → Bool
or_false (ok b) = b
or_false (err e) = false

abbrev pub as_count : Bool → ℕ
as_count true = 1
as_count false = 0

-- The events of a file that is not intact.
abbrev pub log_status : ℕ → IntegrityStatus → Exec World (Unit {0})
log_status id intact = pure tt
log_status id IntegrityStatus.both_corrupted = do
  ignore (log_event EventType.both_corrupted (some id))
  ignore (log_event integrity_fail (some id))
log_status id _ = ignore (log_event integrity_fail (some id))

unfoldable pub store_result : ℕ → TrackedFile → Text → Bool → Bool → Exec World (Unit {0})
store_result run_id file status recovered needs_attention = do
  update_tracked_file_last_integrity_check_at file.id
  append_integrity_run_result run_id file.id file.drive_pair_id file.relative_path status recovered
      needs_attention
  increment_integrity_run_progress run_id (as_count needs_attention) (as_count recovered)

module _ (b3 : Blake3) where
  unfoldable pub recover_file : DrivePair → TrackedFile → IntegrityCheckResult → Exec World Bool
  recover_file pair file result w =
      let (r, w') = attempt_recovery_with_reconciliation b3 pair file result w in
      (ok (or_false r), w')

  -- The body of `for (file, result) in parallel_results`.
  unfoldable pub process_result :
      ℕ → Bool → DrivePair → TrackedFile → Result IntegrityCheckResult → Exec World (Unit {0})
  process_result run_id recover pair file (err e) =
      store_result run_id file (text "internal_error") false true
  process_result run_id recover pair file (ok result) = do
    recovered ←
        if recover && not (is_intact result.status)
        then recover_file pair file result
        else pure false
    log_status file.id result.status
    store_result run_id file (status_str result.status) recovered
        (not (is_intact result.status) && not recovered)

  unfoldable pub process_results :
      ℕ
      → Bool
      → DrivePair
      → List (TrackedFile × Result IntegrityCheckResult)
      → Exec World (Unit {0})
  process_results run_id recover pair [] = pure tt
  process_results run_id recover pair ((file, result) ∷ rest) = do
    process_result run_id recover pair file result
    process_results run_id recover pair rest

  module _ (total_ram : ℕ) where
    -- The map over the files of the page. The checks only read, so that the order in which the
    -- threads of the pool take them does not matter.
    unfoldable pub check_files :
        DrivePair → List TrackedFile → World → List (TrackedFile × Result IntegrityCheckResult)
    check_files pair [] w = []
    check_files pair (f ∷ fs) w =
        (
          f,
          (check_file_integrity b3 pair f (for_drive total_ram pair.primary_media_type f.file_size)
              (for_drive total_ram pair.secondary_media_type f.file_size) w.fs).0,
        )
        ∷ check_files pair fs w

    -- The loop over the pages of a pair, on fuel: whether the run is over, what is still to happen
    -- beside it, and `none` where the fuel is spent.
    unfoldable pub run_pages :
        ℕ
        → Bool
        → Option ℕ
        → DrivePair
        → ℕ
        → ℕ
        → List Interval
        → Exec World (Option (Bool × List Interval))
    run_pages run_id recover deadline pair zero page env = pure none
    run_pages run_id recover deadline pair (suc fuel) page env = do
      modify (elapse_first run_id env)
      stops ← check_should_stop run_id deadline
      if stops
          then (do set_integrity_run_active_workers run_id 0; pure (some (true, rest_of env)))
          else do
            listed ← list_tracked_files_oldest_integrity_first (some pair.id) page run_page_size
            if length listed.0 == 0 then pure (some (false, rest_of env)) else do
              checked ← gets (check_files pair listed.0)
              process_results run_id recover pair checked
              if leb listed.1 (page * run_page_size)
                  then pure (some (false, rest_of env))
                  else run_pages run_id recover deadline pair fuel (page + 1) (rest_of env)

    module _ (cfg : ChecksumConfig) (pool_builds : ℕ → Bool) where
      -- The size of the pool for a pair: one thread where the wanted pool cannot be built.
      abbrev pub workers_for : DrivePair → ℕ
      workers_for pair =
          let wanted =
            at_least_one
              (pool_size_for_pair pair.primary_media_type pair.secondary_media_type cfg) in
          if pool_builds wanted then wanted else 1

      -- What follows the last pair.
      unfoldable pub conclude : ℕ → Exec World (Option (Unit {0}))
      conclude run_id = do
        final ← get_integrity_run run_id
        finish_integrity_run run_id
            (if final.stop_requested then RunStatus.stopped else RunStatus.completed) none
        ignore (log_event integrity_run_completed none)
        pure (some tt)

      -- What follows the pages of a pair: the next pair, unless the run is over.
      abbrev pub after_pair :
          ℕ
          → (List Interval → Exec World (Option (Unit {0})))
          → Option (Bool × List Interval)
          → Exec World (Option (Unit {0}))
      after_pair run_id next none = pure none
      after_pair run_id next (some (true, env)) = pure (some tt)
      after_pair run_id next (some (false, env)) = do
        set_integrity_run_active_workers run_id 0
        next env

      -- `for pair in pairs`; a page of files takes one unit of fuel.
      unfoldable pub run_pairs :
          ℕ → Bool → Option ℕ → List DrivePair → List Interval → Exec World (Option (Unit {0}))
      run_pairs run_id recover deadline [] env = conclude run_id
      run_pairs run_id recover deadline (pair ∷ pairs) env = do
        set_integrity_run_active_workers run_id (workers_for pair)
        fuel ← gets (λ w. suc (length w.files))
        over ← run_pages run_id recover deadline pair fuel 1 env
        after_pair run_id (run_pairs run_id recover deadline pairs) over

      abbrev pub pairs_in_scope : Option ℕ → Exec World (List DrivePair)
      pairs_in_scope none = gets (λ w. w.pairs)
      pairs_in_scope (some id) = do pair ← get_drive_pair id; pure (pair ∷ [])

      unfoldable pub process_run : ℕ → Option ℕ → List Interval → Exec World (Option (Unit {0}))
      process_run run_id deadline env = do
        run ← get_integrity_run run_id
        ignore (log_event integrity_run_started none)
        pairs ← pairs_in_scope run.scope_drive_pair_id
        run_pairs run_id run.recover deadline pairs env

      -- A run that fails is marked so.
      unfoldable pub mark_failed : ℕ → Result (Option (Unit {0})) → Exec World (Option (Unit {0}))
      mark_failed run_id (ok r) = pure r
      mark_failed run_id (err e) = do
        finish_integrity_run run_id RunStatus.failed (some (failed_with e))
        raise e

      unfoldable pub finished_run : ℕ → Option (Unit {0}) → Exec World (Option IntegrityRun)
      finished_run run_id none = pure none
      finished_run run_id (some done) = do run ← get_integrity_run run_id; pure (some run)

      unfoldable pub run_sync :
          Option ℕ → Bool → Text → Option ℕ → List Interval → Exec World (Option IntegrityRun)
      run_sync scope recover trigger deadline env = do
        run ← start_run scope recover trigger
        processed ←
            λ w. (let (r, w') = process_run run.id deadline env w in mark_failed run.id r w')
        finished_run run.id processed

      -- start_run_async, and what its thread does.
      unfoldable pub run_thread : ℕ → Option ℕ → List Interval → Exec World (Unit {0})
      run_thread run_id deadline env w =
          let (r, w') = process_run run_id deadline env w in ignore (mark_failed run_id r) w'
