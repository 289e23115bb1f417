-- ===== src/Runs/Whole.antt =====
-- A run over all its drive pairs.
use bitprotector.Base.{
  ◌>>=◌, arith, length, suc, ◌++◌, Bool, Exec, List, Option, Option-cases, Result, [], continue,
  err, false, if◌then◌else◌, inl, inr, none, ok, refl, some, true, ℕ, ◌∷◌, ◌≡◌,
}
use bitprotector.Runs.Frame.{
  Resting, Going, finish_integrity_run-Resting, set_integrity_run_active_workers-Keeps,
}
use bitprotector.Runs.Ends.{run_pages-PagesPost, PagesPost, RunPost}
use bitprotector.Runs.Defs.{
  mark_failed, pairs_in_scope, process_run, run_pages, workers_for, Interval, after_pair, conclude,
  run_pairs,
}
use bitprotector.Db.Runs.{
  finish_integrity_run, get_integrity_run, is_active_status, run_is,
  set_integrity_run_active_workers,
}
use bitprotector.Db.Rows.{failed_with, integrity_run_started, DrivePair}
use bitprotector.Db.Pairs.{get_drive_pair, pair_is}
use bitprotector.Db.World.{World, log_event}
use bitprotector.Db.RunRows.{RunStatus}
use bitprotector.Checksum.Hasher.{Blake3}
use bitprotector.Checksum.{ChecksumConfig}
use bitprotector.Base.Table.{find}
use bitprotector.Base.Keeping.{then_post}

module _ (b3 : Blake3) (total_ram : ℕ) (cfg : ChecksumConfig) (pool_builds : ℕ → Bool)
    (run_id n : ℕ) where
  final_status :
      (b : Bool) → is_active_status (if b then RunStatus.stopped else RunStatus.completed) ≡ false
  final_status true = refl
  final_status false = refl

  conclude-RunPost :
      (w : World)
      → Going run_id n w
      → RunPost run_id n (conclude b3 total_ram cfg pool_builds run_id w)
  unfolding conclude get_integrity_run log_event finish_integrity_run
  conclude-RunPost w g = elim (Option-cases (find (run_is run_id) w.runs)) [
    | inl missing ↦ rw missing g
    | inr (run, found) ↦ rw found (
        finish_integrity_run-Resting run_id n
          (if run.stop_requested then RunStatus.stopped else RunStatus.completed) none
          (final_status run.stop_requested) w g)
  ]

  after_pair-RunPost :
      (next : List Interval → Exec World (Option (Unit {0})))
      (r : Result (Option (Bool × List Interval)) × World)
      → PagesPost run_id n r
      → ((env : List Interval) (w : World) → Going run_id n w → RunPost run_id n (next env w))
      → RunPost run_id n (continue r.0 (after_pair b3 total_ram cfg pool_builds run_id next) r.1)
  after_pair-RunPost next (ok none, w) h k = h
  after_pair-RunPost next (ok (some (true, env)), w) h k = h
  after_pair-RunPost next (ok (some (false, env)), w) h k =
      then_post (Going run_id n) (RunPost run_id n) (set_integrity_run_active_workers run_id 0)
        (λ _. next env) (set_integrity_run_active_workers-Keeps run_id n 0) (λ e v g. g)
        (λ _ v g. k env v g) w h
  after_pair-RunPost next (err e, w) h k = h

  run_pairs-RunPost :
      (recover : Bool) (deadline : Option ℕ) (pairs : List DrivePair) (env : List Interval)
      (w : World)
      → Going run_id n w
      → RunPost run_id n
          (run_pairs b3 total_ram cfg pool_builds run_id recover deadline pairs env w)
  unfolding run_pairs
  run_pairs-RunPost recover deadline [] env w g = conclude-RunPost w g
  run_pairs-RunPost recover deadline (pair ∷ pairs) env w g =
      then_post (Going run_id n) (RunPost run_id n)
        (set_integrity_run_active_workers run_id (workers_for b3 total_ram cfg pool_builds pair)) _
        (set_integrity_run_active_workers-Keeps run_id n
          (workers_for b3 total_ram cfg pool_builds pair))
        (λ e v h. h)
        (λ _ v h.
          after_pair-RunPost (run_pairs b3 total_ram cfg pool_builds run_id recover deadline pairs)
            (run_pages b3 total_ram run_id recover deadline pair (suc (length v.files)) 1 env v)
            (run_pages-PagesPost run_id n b3 total_ram recover deadline pair (suc (length v.files))
              1 env (omega arith) (omega (arith, h.1)) (omega arith) v h)
            (λ env u k. run_pairs-RunPost recover deadline pairs env u k))
        w g

  scope_post :
      (scope : Option ℕ) (f : List DrivePair → Exec World (Option (Unit {0})))
      → ((pairs : List DrivePair) (w : World) → Going run_id n w → RunPost run_id n (f pairs w))
      → (w : World) → Going run_id n w
      → RunPost run_id n ((pairs_in_scope b3 total_ram cfg pool_builds scope >>= f) w)
  unfolding get_drive_pair
  scope_post none f k w g = k w.pairs w g
  scope_post (some id) f k w g = elim (Option-cases (find (pair_is id) w.pairs)) [
    | inl missing ↦ rw missing g
    | inr (pair, found) ↦ rw found (k (pair ∷ []) w g)
  ]

  pub process_run-RunPost :
      (deadline : Option ℕ) (env : List Interval) (w : World)
      → Going run_id n w
      → RunPost run_id n (process_run b3 total_ram cfg pool_builds run_id deadline env w)
  unfolding process_run get_integrity_run log_event
  process_run-RunPost deadline env w g = elim (Option-cases (find (run_is run_id) w.runs)) [
    | inl missing ↦ rw missing g
    | inr (run, found) ↦ rw found (
        scope_post run.scope_drive_pair_id _
          (λ pairs v h. run_pairs-RunPost run.recover deadline pairs env v h)
          (record w {
            events =
                w.events
                ++ record { event_type = integrity_run_started; tracked_file_id = none } ∷ [];
          })
          g)
  ]

  -- A run that was processed and, where it failed, marked so.
  abbrev pub EndPost : Result (Option (Unit {0})) × World → Type 0
  EndPost (ok none, w) = false ≡ true
  EndPost (ok (some done), w) = Resting w
  EndPost (err e, w) = Resting w

  mark_failed-EndPost :
      (r : Result (Option (Unit {0})) × World)
      → RunPost run_id n r
      → EndPost (mark_failed b3 total_ram cfg pool_builds run_id r.0 r.1)
  unfolding mark_failed finish_integrity_run
  mark_failed-EndPost (ok none, w) h = h
  mark_failed-EndPost (ok (some done), w) h = h
  mark_failed-EndPost (err e, w) h =
      finish_integrity_run-Resting run_id n RunStatus.failed (some (failed_with e)) refl w h

  pub process_run-EndPost :
      (deadline : Option ℕ) (env : List Interval) (w : World)
      → Going run_id n w
      → EndPost (
          mark_failed b3 total_ram cfg pool_builds run_id
            (process_run b3 total_ram cfg pool_builds run_id deadline env w).0
            (process_run b3 total_ram cfg pool_builds run_id deadline env w).1)
  process_run-EndPost deadline env w g =
      mark_failed-EndPost (process_run b3 total_ram cfg pool_builds run_id deadline env w)
        (process_run-RunPost deadline env w g)
