-- ===== src/Scheduler/Task.antt =====
-- core/scheduler.rs: run_task, which runs the drain of the queue or an integrity run.
use bitprotector.SyncQueue.Drain.{Schedule, process_all_pending}
use bitprotector.Runs.{Interval, run_sync}
use bitprotector.Db.World.{World}
use bitprotector.Db.Schedules.{TaskType, integrity_check, sync}
use bitprotector.Db.RunRows.{IntegrityRun}
use bitprotector.Checksum.Hasher.{Blake3}
use bitprotector.Checksum.{ChecksumConfig}
use bitprotector.Base.{Bool, List, Option, Result, err, false, none, ok, some, text, ℕ}

abbrev pub attention_of : Result (Option IntegrityRun) → Option (Result ℕ)
attention_of (ok none) = none
attention_of (ok (some run)) = some (ok run.attention_files)
attention_of (err e) = some (err e)

-- What a task needs of its surroundings: the process and the system it runs on, the schedule of the
-- workers, and what happens beside an integrity run.
pub record Surroundings : Type 0 where
  pub pid : ℕ
  pub alive : ℕ → Bool
  pub fuel : ℕ
  pub worker_schedules : ℕ → Schedule
  pub total_ram : ℕ
  pub pool_builds : ℕ → Bool
  pub intervals : List Interval

-- `none` where the drain still runs when its fuel is spent.
unfoldable pub run_task :
    Blake3 → Surroundings → TaskType → Option ℕ → ChecksumConfig → World → Option (Result ℕ) × World
run_task b3 s sync stop_by cfg w =
    process_all_pending b3 stop_by s.pid s.alive s.fuel s.worker_schedules w
run_task b3 s integrity_check stop_by cfg w =
    let (r, w') =
      run_sync b3 s.total_ram cfg s.pool_builds none false (text "scheduler") stop_by s.intervals
        w in
    (attention_of r, w')
