-- ===== src/Db/Runs.antt =====
-- db/repository.rs: the statements on integrity_runs.
pub mod Results
pub mod Order
pub mod Pages
use bitprotector.Db.World.{World}
use bitprotector.Db.RunRows.{IntegrityRun, RunStatus, stopping}
use bitprotector.Db.Rows.{Message, interrupted}
use bitprotector.Db.Pairs.{pair_is}
use bitprotector.Db.Listing.{when_given}
use bitprotector.Base.Table.{count_where, find, select, update_where}
use bitprotector.Base.{
  Bool, Exec, List, Option, Text, [], false, foreign_key_failed, gets, if◌then◌else◌, is_some, ltb,
  modify, none, not, or_raise, pure, raise_if, row_not_found, some, true, ℕ, ◌&&◌, ◌++◌, ◌+◌, ◌==◌,
  ◌>>=◌, ◌>>◌, ◌||◌, ◌∷◌,
}

abbrev pub run_is : ℕ → IntegrityRun → Bool
run_is id r = r.id == id

-- status IN ('running', 'stopping')
abbrev pub is_active_status : RunStatus → Bool
is_active_status RunStatus.running = true
is_active_status stopping = true
is_active_status RunStatus.stopped = false
is_active_status RunStatus.completed = false
is_active_status RunStatus.failed = false

abbrev pub is_active_run : IntegrityRun → Bool
is_active_run r = is_active_status r.status

abbrev pub update_runs : (IntegrityRun → Bool) → (IntegrityRun → IntegrityRun) → World → World
update_runs p f w = record w { runs = update_where p f w.runs }

-- ORDER BY started_at DESC, id DESC
abbrev pub is_newer : IntegrityRun → IntegrityRun → Bool
is_newer a b = ltb b.started_at a.started_at || ((a.started_at == b.started_at) && ltb b.id a.id)

abbrev pub newer_of : IntegrityRun → Option IntegrityRun → Option IntegrityRun
newer_of r none = some r
newer_of r (some best) = if is_newer best r then some best else some r

-- ... LIMIT 1
unfoldable pub newest_run : List IntegrityRun → Option IntegrityRun
newest_run [] = none
newest_run (r ∷ rs) = newer_of r (newest_run rs)

unfoldable pub get_integrity_run : ℕ → Exec World IntegrityRun
get_integrity_run id = do found ← gets (λ w. find (run_is id) w.runs); or_raise found row_not_found

unfoldable pub get_active_integrity_run : Exec World (Option IntegrityRun)
get_active_integrity_run = gets (λ w. newest_run (select is_active_run w.runs))

unfoldable pub get_latest_integrity_run : Exec World (Option IntegrityRun)
get_latest_integrity_run = gets (λ w. newest_run w.runs)

-- The scope refers to a drive pair, where it is given.
unfoldable pub create_integrity_run : Option ℕ → Bool → Text → ℕ → Exec World IntegrityRun
create_integrity_run scope recover trigger total_files = do
  known ← gets (λ w. when_given scope (λ id. is_some (find (pair_is id) w.pairs)))
  raise_if (not known) foreign_key_failed
  id ← gets (λ w. w.next_run_id)
  modify (λ w. record w {
    runs =
        w.runs
        ++ record {
          id = id;
          scope_drive_pair_id = scope;
          recover = recover;
          trigger = trigger;
          status = RunStatus.running;
          total_files = total_files;
          processed_files = 0;
          attention_files = 0;
          recovered_files = 0;
          active_workers = 0;
          stop_requested = false;
          started_at = w.now;
          ended_at = none;
          error_message = none;
        }
          ∷ [];
    next_run_id = id + 1;
  })
  get_integrity_run id

unfoldable pub set_integrity_run_active_workers : ℕ → ℕ → Exec World (Unit {0})
set_integrity_run_active_workers id count =
    modify (update_runs (run_is id) (λ r. record r { active_workers = count }))

-- CASE WHEN status='running' THEN 'stopping' ELSE status END
abbrev pub stopping_if_running : RunStatus → RunStatus
stopping_if_running RunStatus.running = stopping
stopping_if_running status = status

unfoldable pub request_integrity_run_stop : ℕ → Exec World (Unit {0})
request_integrity_run_stop id = modify (
    update_runs (run_is id)
      (λ r. record r { stop_requested = true; status = stopping_if_running r.status }))

abbrev pub ended_run : ℕ → RunStatus → Option Message → IntegrityRun → IntegrityRun
ended_run now status message r = record r {
  status = status;
  ended_at = some now;
  error_message = message;
  active_workers = 0;
}

unfoldable pub finish_integrity_run : ℕ → RunStatus → Option Message → Exec World (Unit {0})
finish_integrity_run id status message =
    modify (λ w. update_runs (run_is id) (ended_run w.now status message) w)

unfoldable pub cleanup_stale_integrity_runs : Exec World ℕ
cleanup_stale_integrity_runs = do
  count ← gets (λ w. count_where is_active_run w.runs)
  modify (λ w. update_runs is_active_run (ended_run w.now RunStatus.failed (some interrupted)) w)
  pure count

unfoldable pub increment_integrity_run_progress : ℕ → ℕ → ℕ → Exec World (Unit {0})
increment_integrity_run_progress id attention_delta recovered_delta = modify (
    update_runs (run_is id) (λ r. record r {
      processed_files = r.processed_files + 1;
      attention_files = r.attention_files + attention_delta;
      recovered_files = r.recovered_files + recovered_delta;
    }))
