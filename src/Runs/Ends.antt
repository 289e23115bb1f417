-- ===== src/Runs/Ends.antt =====
-- A run comes to its end, and leaves no run under way.
use bitprotector.Db.Runs.{
  finish_integrity_run, get_integrity_run, run_is, set_integrity_run_active_workers,
}
use bitprotector.Runs.Processing.{process_results-Keeps}
use bitprotector.Runs.Defs.{
  check_files, process_results, rest_of, stop_run, Interval, check_should_stop, elapse_first,
  run_pages,
}
use bitprotector.Db.Runs.Results.{list_tracked_files_oldest_integrity_first, sort_by_check}
use bitprotector.Db.Rows.{TrackedFile, DrivePair}
use bitprotector.Base.Paging.{page_of}
use bitprotector.Base.Keeping.{then_post}
use bitprotector.Base.{
  Bool-cases, leb, ◌*◌, ◌==◌, Bool, Error, Exec, List, Option, Option-cases, Result, [], arith,
  continue, err, false, if◌then◌else◌, inl, inr, length, none, ok, pure, refl, some, suc, true,
  zero, ℕ, ◌+◌, ◌<◌, ◌||◌, ◌∷◌, ◌≡◌, ◌≤◌,
}
use bitprotector.SyncQueue.Drain.{past_deadline}
use bitprotector.Runs.Frame.{
  Going, Resting, RowRests, elapse_keeps, finish_integrity_run-Resting,
  set_integrity_run_active_workers-Keeps,
}
use bitprotector.Db.World.{World}
use bitprotector.Db.RunRows.{RunStatus}
use bitprotector.Checksum.Hasher.{Blake3}
use bitprotector.Base.Table.Laws.{All-update_where}
use bitprotector.Base.Table.{find, select}

module _ (run_id n : ℕ) where
  abbrev CheckPost : Result Bool × World → Type 0
  CheckPost (ok true, w) = Resting w
  CheckPost (ok false, w) = Going run_id n w
  CheckPost (err e, w) = Going run_id n w

  abbrev pub PagesPost : Result (Option (Bool × List Interval)) × World → Type 0
  PagesPost (ok none, w) = false ≡ true
  PagesPost (ok (some (true, env)), w) = Resting w
  PagesPost (ok (some (false, env)), w) = Going run_id n w
  PagesPost (err e, w) = Going run_id n w

  -- A run that is processed does not run out of fuel; it is over, or it failed.
  abbrev pub RunPost : Result (Option (Unit {0})) × World → Type 0
  RunPost (ok none, w) = false ≡ true
  RunPost (ok (some done), w) = Resting w
  RunPost (err e, w) = Going run_id n w

  stop_requested-CheckPost :
      (b : Bool) (w : World)
      → Going run_id n w
      → CheckPost ((if b then stop_run run_id else pure false) w)
  unfolding set_integrity_run_active_workers finish_integrity_run
  stop_requested-CheckPost true w g =
      finish_integrity_run-Resting run_id n RunStatus.stopped none refl
        (set_integrity_run_active_workers run_id 0 w).1
        (set_integrity_run_active_workers-Keeps run_id n 0 w g)
  stop_requested-CheckPost false w g = g

  check_should_stop-CheckPost :
      (deadline : Option ℕ) (w : World)
      → Going run_id n w
      → CheckPost (check_should_stop run_id deadline w)
  unfolding check_should_stop get_integrity_run
  check_should_stop-CheckPost deadline w g = elim (Option-cases (find (run_is run_id) w.runs)) [
    | inl missing ↦ rw missing g
    | inr (run, found) ↦
        rw found (stop_requested-CheckPost (run.stop_requested || past_deadline deadline w) w g)
  ]

  after_check :
      {A : Type 0} (Q : Result A × World → Type 0) (f : Bool → Exec World A)
      (r : Result Bool × World)
      → CheckPost r
      → ((w : World) → Resting w → Q (f true w))
      → ((w : World) → Going run_id n w → Q (f false w))
      → ((e : Error) (w : World) → Going run_id n w → Q (err e, w))
      → Q (continue r.0 f r.1)
  after_check Q f (ok true, w) h over on bad = over w h
  after_check Q f (ok false, w) h over on bad = on w h
  after_check Q f (err e, w) h over on bad = bad e w h

  pub set_workers-Resting :
      (count : ℕ) (w : World)
      → Resting w
      → Resting (set_integrity_run_active_workers run_id count w).1
  unfolding set_integrity_run_active_workers
  set_workers-Resting count w h =
      All-update_where RowRests RowRests (run_is run_id) _ (λ _ _ k. k) (λ _ _ k. k) w.runs h

  pub length-select : {A : Type 0} (p : A → Bool) (l : List A) → length (select p l) ≤ length l
  length-select p [] = omega arith
  length-select p (x ∷ xs) = ground (arith, length-select p xs)

  pages_left :
      (rows files fuel page : ℕ)
      → leb rows (page * 100) ≡ false
      → rows ≤ files
      → files ≡ n
      → n < suc fuel + page
      → 1 ≤ page
      → 1 ≤ fuel
  pages_left rows files fuel page further a b c d = ground arith

  module _ (b3 : Blake3) (total_ram : ℕ) where
    abbrev rows_of : DrivePair → World → List TrackedFile
    rows_of pair w = select (λ (f : TrackedFile). f.drive_pair_id == pair.id) w.files

    -- As long as the fuel and the pages that are done are more than the files.
    pub run_pages-PagesPost :
        (recover : Bool) (deadline : Option ℕ) (pair : DrivePair) (fuel page : ℕ)
        (env : List Interval)
        → 1 ≤ fuel
        → n < fuel + page
        → 1 ≤ page
        → (w : World) → Going run_id n w
        → PagesPost (run_pages b3 total_ram run_id recover deadline pair fuel page env w)
    unfolding run_pages list_tracked_files_oldest_integrity_first set_integrity_run_active_workers
    run_pages-PagesPost recover deadline pair zero page env pos enough start w g =
        absurd (omega arith)
    run_pages-PagesPost recover deadline pair (suc fuel) page env pos enough start w g =
        after_check PagesPost _ (check_should_stop run_id deadline (elapse_first run_id env w))
          (check_should_stop-CheckPost deadline (elapse_first run_id env w)
            (elapse_keeps run_id n env w g))
          (λ v h. set_workers-Resting 0 v h)
          (λ v h.
            elim (Bool-cases (length (page_of page 100 (sort_by_check (rows_of pair v))) == 0)) [
              | inl empty ↦ rw empty h
              | inr more ↦ rw more (
                  then_post (Going run_id n) PagesPost
                    (process_results b3 run_id recover pair (
                      check_files b3 total_ram pair
                        (page_of page 100 (sort_by_check (rows_of pair v))) v))
                    _ (process_results-Keeps run_id n b3 recover pair _) (λ e u k. k)
                    (λ _ u k. elim (Bool-cases (leb (length (rows_of pair v)) (page * 100))) [
                      | inl last ↦ rw last k
                      | inr further ↦ rw further (
                          run_pages-PagesPost recover deadline pair fuel (page + 1) (rest_of env)
                            (pages_left (length (rows_of pair v)) (length v.files) fuel page further
                              (length-select _ v.files) h.1 enough start)
                            (omega arith) (omega arith) u k)
                    ])
                    v h)
            ])
          (λ e v h. h)
