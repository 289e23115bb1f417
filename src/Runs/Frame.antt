-- ===== src/Runs/Frame.antt =====
-- What a run leaves of the other runs and of the files while it goes on.
use bitprotector.Base.{
  Bool-cases, inl, ==_iff, Option, Text, inr, All, Bool, List, [], arith, false, length, refl, true,
  ℕ, ◌+◌, ◌∷◌, ◌≡◌, ◌≤◌, ◌⊎◌,
}
use bitprotector.Runs.Defs.{Interval, elapse, elapse_first}
use bitprotector.Fs.{FilePath}
use bitprotector.Db.Runs.Results.{append_integrity_run_result}
use bitprotector.Db.Runs.{
  ended_run, finish_integrity_run, increment_integrity_run_progress, is_active_status,
  request_integrity_run_stop, is_active_run, run_is, set_integrity_run_active_workers,
  stopping_if_running, update_runs,
}
use bitprotector.Db.RunRows.{RunStatus, IntegrityRun}
use bitprotector.Db.Rows.{Message, TrackedFile}
use bitprotector.Db.Files.{
  file_is, update_tracked_file_last_integrity_check_at, update_tracked_file_mirror_status,
  update_files,
}
use bitprotector.Db.World.{World}
use bitprotector.Base.Table.Laws.{All-update_where}
use bitprotector.Base.Table.{update_where}
use bitprotector.Base.Keeping.{Keeps}

-- Each file counts once at most, as one that needs attention or as one that is recovered.
abbrev pub IsCounted : IntegrityRun → Type 0
IsCounted r = r.attention_files + r.recovered_files ≤ r.processed_files

-- No run is under way but the one given.
abbrev pub RowFits : ℕ → IntegrityRun → Type 0
RowFits run_id r = ((is_active_run r ≡ false) ⊎ (r.id ≡ run_id)) × IsCounted r

-- Only the run given is under way, and there are as many files as there were.
abbrev pub Going : ℕ → ℕ → World → Type 0
Going run_id n w = All (RowFits run_id) w.runs × (length w.files ≡ n)

-- No run is under way.
abbrev pub RowRests : IntegrityRun → Type 0
RowRests r = (is_active_run r ≡ false) × IsCounted r

abbrev pub Resting : World → Type 0
Resting w = All RowRests w.runs

length-update_where :
    {A : Type 0} (p : A → Bool) (f : A → A) (l : List A) → length (update_where p f l) ≡ length l
length-update_where p f [] = refl
length-update_where p f (x ∷ xs) = omega (arith, length-update_where p f xs)

module _ (run_id n : ℕ) where
  -- An update of runs that keeps each row's part, and one of files.
  pub update_runs_keeps :
      (p : IntegrityRun → Bool) (f : IntegrityRun → IntegrityRun)
      → ((r : IntegrityRun) → RowFits run_id r → RowFits run_id (f r))
      → (w : World) → Going run_id n w
      → Going run_id n (update_runs p f w)
  update_runs_keeps p f keep w g = (
    All-update_where (RowFits run_id) (RowFits run_id) p f (λ r _ h. keep r h) (λ r _ h. h) w.runs
        g.0,
    g.1,
  )

  update_files_keeps :
      (p : TrackedFile → Bool) (f : TrackedFile → TrackedFile) (w : World)
      → Going run_id n w
      → Going run_id n (update_files p f w)
  update_files_keeps p f w g = (g.0, rw (length-update_where p f w.files) g.1)

  pub set_integrity_run_active_workers-Keeps :
      (count : ℕ) → Keeps (Going run_id n) (set_integrity_run_active_workers run_id count)
  unfolding set_integrity_run_active_workers
  set_integrity_run_active_workers-Keeps count w g =
      update_runs_keeps (run_is run_id) _ (λ r h. h) w g

  stop_requested_fits :
      (r : IntegrityRun)
      → RowFits run_id r
      → RowFits run_id (record r { stop_requested = true; status = stopping_if_running r.status })
  stop_requested_fits r h = ground (arith, h)

  pub request_integrity_run_stop-Keeps : Keeps (Going run_id n) (request_integrity_run_stop run_id)
  unfolding request_integrity_run_stop
  request_integrity_run_stop-Keeps w g = update_runs_keeps (run_is run_id) _ stop_requested_fits w g

  pub elapse_keeps :
      (env : List Interval) (w : World)
      → Going run_id n w
      → Going run_id n (elapse_first run_id env w)
  unfolding elapse
  elapse_keeps [] w g = g
  elapse_keeps (i ∷ is) w g = elim (Bool-cases i.asks_stop) [
    | inl asked ↦
        rw asked (request_integrity_run_stop-Keeps (record w { now = w.now + i.seconds }) g)
    | inr silent ↦ rw silent g
  ]

  fits_by_id :
      (status : RunStatus) (now : ℕ) (message : Option Message) (r : IntegrityRun)
      → (r.id ≡ run_id)
      → RowFits run_id r
      → RowFits run_id (ended_run now status message r)
  fits_by_id status now message r e h = (inr e, h.1)

  pub finish_integrity_run-Keeps :
      (status : RunStatus) (message : Option Message)
      → Keeps (Going run_id n) (finish_integrity_run run_id status message)
  unfolding finish_integrity_run
  finish_integrity_run-Keeps status message w g = (
    All-update_where (RowFits run_id) (RowFits run_id) (run_is run_id)
        (ended_run w.now status message)
        (λ r hit h. fits_by_id status w.now message r ((==_iff r.id run_id).0 hit) h) (λ r _ h. h)
        w.runs g.0,
    g.1,
  )

  -- The end of the run leaves none under way.
  pub finish_integrity_run-Resting :
      (status : RunStatus) (message : Option Message)
      → is_active_status status ≡ false
      → (w : World) → Going run_id n w
      → Resting (finish_integrity_run run_id status message w).1
  unfolding finish_integrity_run
  finish_integrity_run-Resting status message over w g =
      All-update_where (RowFits run_id) RowRests (run_is run_id) (ended_run w.now status message)
        (λ r hit h. (over, h.1)) (λ r miss h. ground (arith, h, ==_iff r.id run_id)) w.runs g.0

  pub update_tracked_file_last_integrity_check_at-Keeps :
      (id : ℕ) → Keeps (Going run_id n) (update_tracked_file_last_integrity_check_at id)
  unfolding update_tracked_file_last_integrity_check_at
  update_tracked_file_last_integrity_check_at-Keeps id w g = update_files_keeps (file_is id) _ w g

  pub update_tracked_file_mirror_status-Keeps :
      (id : ℕ) (mirrored : Bool)
      → Keeps (Going run_id n) (update_tracked_file_mirror_status id mirrored)
  unfolding update_tracked_file_mirror_status
  update_tracked_file_mirror_status-Keeps id mirrored w g = update_files_keeps (file_is id) _ w g

  append_frame :
      (file_id pair_id : ℕ) (path : FilePath) (status : Text) (recovered needs_attention : Bool)
      (w : World)
      → ((append_integrity_run_result run_id file_id pair_id path status recovered needs_attention
            w).1.runs
          ≡ w.runs)
        × ((append_integrity_run_result run_id file_id pair_id path status recovered needs_attention
              w).1.files
            ≡ w.files)
  unfolding append_integrity_run_result
  append_frame file_id pair_id path status recovered needs_attention w = ground arith

  pub append_integrity_run_result-Keeps :
      (file_id pair_id : ℕ) (path : FilePath) (status : Text) (recovered needs_attention : Bool)
      → Keeps
          (Going run_id n)
          (append_integrity_run_result run_id file_id pair_id path status recovered needs_attention)
  append_integrity_run_result-Keeps file_id pair_id path status recovered needs_attention w g =
      let frame = append_frame file_id pair_id path status recovered needs_attention w in
      rw (frame.0, frame.1) g

  increment_fits :
      (attention recovered : ℕ)
      → attention + recovered ≤ 1
      → (r : IntegrityRun) → RowFits run_id r
      → RowFits run_id (record r {
        processed_files = r.processed_files + 1;
        attention_files = r.attention_files + attention;
        recovered_files = r.recovered_files + recovered;
      })
  increment_fits attention recovered le r h = (h.0, omega (arith, h.1, le))

  pub increment_integrity_run_progress-Keeps :
      (attention recovered : ℕ)
      → attention + recovered ≤ 1
      → Keeps (Going run_id n) (increment_integrity_run_progress run_id attention recovered)
  unfolding increment_integrity_run_progress
  increment_integrity_run_progress-Keeps attention recovered le w g =
      update_runs_keeps (run_is run_id) _ (increment_fits attention recovered le) w g
