-- ===== src/Runs/Single.antt =====
-- At most one run is under way, and it ends.
use bitprotector.Base.{
  All, Exec, sym, ◌>>=◌, Option-cases, continue, run_active, ==_iff, Bool-cases, List, arith, inr,
  is_some, refl, ◌==◌, Bool, Option, Result, Text, [], err, false, inl, length, none, ok, some,
  true, ℕ, ◌++◌, ◌+◌, ◌∷◌, ◌≡◌,
}
use bitprotector.Runs.Frame.{IsCounted, Going, Resting, RowFits, RowRests}
use bitprotector.Runs.Whole.{process_run-EndPost, EndPost}
use bitprotector.Runs.Defs.{mark_failed, process_run, Interval, finished_run, run_sync, start_run}
use bitprotector.Db.Runs.{
  newer_of, is_active_run, newest_run, run_is, create_integrity_run, get_active_integrity_run,
  get_integrity_run,
}
use bitprotector.Base.Table.Laws.{All-append, All-weaken, find_sound}
use bitprotector.SyncQueue.Process.Outcome.{started}
use bitprotector.Checksum.Hasher.{Blake3}
use bitprotector.Checksum.{ChecksumConfig}
use bitprotector.Db.Rows.{TrackedFile}
use bitprotector.Db.Pairs.{pair_is}
use bitprotector.Db.Listing.{when_given, count_tracked_files}
use bitprotector.Base.Table.{count_where, find, select}
use bitprotector.Db.World.{World}
use bitprotector.Db.RunRows.{IntegrityRun, RunStatus}

-- The loops of the run were not cut off.
abbrev pub has_ended : {A : Type 0} → Result (Option A) → Bool
has_ended (ok none) = false
has_ended (ok (some a)) = true
has_ended (err e) = true

rests_fits : (run_id : ℕ) (r : IntegrityRun) → RowRests r → RowFits run_id r
rests_fits run_id r h = (inl h.0, h.1)

abbrev pub new_run : Option ℕ → Bool → Text → ℕ → World → IntegrityRun
new_run scope recover trigger total_files w = record {
  id = w.next_run_id;
  scope_drive_pair_id = scope;
  recover = recover;
  trigger = trigger;
  status = RunStatus.running;
  total_files = total_files;
  processed_files = 0;
  attention_files = 0;
  recovered_files = 0;
  active_workers = 0;
  stop_requested = false;
  started_at = w.now;
  ended_at = none;
  error_message = none;
}

-- The row that was inserted is found by its id.
find-append_new :
    (r : IntegrityRun) (l : List IntegrityRun)
    → (q : IntegrityRun) × (find (run_is r.id) (l ++ r ∷ []) ≡ some q)
find-append_new r [] = (r, ground arith)
find-append_new r (x ∷ xs) = elim (Bool-cases (x.id == r.id)) [
  | inl hit ↦ (x, rw hit refl)
  | inr miss ↦ let rest = find-append_new r xs in (rest.0, rw miss rest.1)
]

newer_of-some : (r : IntegrityRun) (o : Option IntegrityRun) → is_some (newer_of r o) ≡ true
newer_of-some r none = refl
newer_of-some r (some best) = ground arith

abbrev any_active : World → Bool
any_active w = is_some (newest_run (select is_active_run w.runs))

active_last :
    (r : IntegrityRun)
    → is_active_run r ≡ true
    → (l : List IntegrityRun) → is_some (newest_run (select is_active_run (l ++ r ∷ []))) ≡ true
unfolding newest_run
active_last r h [] = rw h refl
active_last r h (x ∷ xs) = elim (Bool-cases (is_active_run x)) [
  | inl busy ↦ rw busy (newer_of-some x (newest_run (select is_active_run (xs ++ r ∷ []))))
  | inr idle ↦ rw idle (active_last r h xs)
]

-- Where the query finds no run under way, there is none.
none_active :
    (l : List IntegrityRun)
    → is_some (newest_run (select is_active_run l)) ≡ false
    → All IsCounted l
    → All RowRests l
unfolding newest_run
none_active [] h counted = tt
none_active (r ∷ rs) h counted =
    ground (arith, none_active rs, newer_of-some r (newest_run (select is_active_run rs)))

-- A start is refused, and changes nothing, where a run is under way.
start_run-refused :
    (scope : Option ℕ) (recover : Bool) (trigger : Text) (w : World)
    → any_active w ≡ true
    → start_run scope recover trigger w ≡ (err run_active, w)
unfolding start_run get_active_integrity_run
start_run-refused scope recover trigger w h = rw h refl

module _ (scope : Option ℕ) (recover : Bool) (trigger : Text) where
  -- A start either fails and changes nothing, or adds the new row and returns a row with its id.
  abbrev Starts : World → Result IntegrityRun × World → Type 0
  Starts w (ok run, v) =
      (run.id ≡ w.next_run_id)
      × ((total : ℕ) × (v ≡ record w {
        runs = w.runs ++ new_run scope recover trigger total w ∷ [];
        next_run_id = w.next_run_id + 1;
      }))
  Starts w (err e, v) = v.runs ≡ w.runs

  start_run-Starts : (w : World) → Starts w (start_run scope recover trigger w)
  unfolding start_run create_integrity_run get_integrity_run get_active_integrity_run
      count_tracked_files
  start_run-Starts w = elim (Bool-cases (is_some (newest_run (select is_active_run w.runs)))) [
    | inl taken ↦ rw taken refl
    | inr free ↦
        rw free (elim (Bool-cases (when_given scope (λ id. is_some (find (pair_is id) w.pairs)))) [
          | inr missing ↦ rw missing refl
          | inl known ↦
              let total =
                count_where (λ (f : TrackedFile). when_given scope (λ id. f.drive_pair_id == id))
                  w.files in
              let row = find-append_new (new_run scope recover trigger total w) w.runs in
              rw (known, row.1)
                (
                  (==_iff row.0.id w.next_run_id).0 (
                      find_sound (run_is w.next_run_id)
                        (w.runs ++ new_run scope recover trigger total w ∷ []) row.0 row.1),
                  (total, refl),
                )
        ])
  ]

  started-Going :
      (w : World) (run : IntegrityRun) (v : World)
      → Starts w (ok run, v)
      → Resting w
      → Going run.id (length v.files) v
  started-Going w run v s h = rw s.1.1 (
    All-append (RowFits run.id) w.runs (new_run scope recover trigger s.1.0 w ∷ [])
        (All-weaken RowRests (RowFits run.id) (λ r k. rests_fits run.id r k) w.runs h)
        ((inr (sym s.0), omega arith), tt),
    refl,
  )

  started_active :
      (w : World) (r : Result IntegrityRun × World)
      → Starts w r
      → (run : IntegrityRun) → r.0 ≡ ok run
      → any_active r.1 ≡ true
  started_active w (err e, v) s run eq = absurd cc
  started_active w (ok started, v) s run eq =
      rw s.1.1 (active_last (new_run scope recover trigger s.1.0 w) refl w.runs)

  -- Where a run was started, another start, whatever it is for, is refused from then on while
  -- nothing else has changed, and changes nothing itself.
  pub start_run-start_run :
      (other_scope : Option ℕ) (other_recover : Bool) (other_trigger : Text) (w : World)
      (run : IntegrityRun)
      → (start_run scope recover trigger w).0 ≡ ok run
      → start_run other_scope other_recover other_trigger (start_run scope recover trigger w).1
        ≡ (err run_active, (start_run scope recover trigger w).1)
  start_run-start_run other_scope other_recover other_trigger w run eq =
      start_run-refused other_scope other_recover other_trigger
        (start_run scope recover trigger w).1
        (started_active w (start_run scope recover trigger w) (start_run-Starts w) run eq)

  module _ (b3 : Blake3) (total_ram : ℕ) (cfg : ChecksumConfig) (pool_builds : ℕ → Bool) where
    abbrev SyncPost : Result (Option IntegrityRun) × World → Type 0
    SyncPost r = (has_ended r.0 ≡ true) × Resting r.1

    finished_run-SyncPost :
        (run_id n : ℕ) (r : Result (Option (Unit {0})) × World)
        → EndPost b3 total_ram cfg pool_builds run_id n r
        → SyncPost (continue r.0 (finished_run b3 total_ram cfg pool_builds run_id) r.1)
    unfolding finished_run get_integrity_run
    finished_run-SyncPost run_id n (ok none, w) h = absurd cc
    finished_run-SyncPost run_id n (ok (some done), w) h =
        elim (Option-cases (find (run_is run_id) w.runs)) [
          | inl missing ↦ rw missing (refl, h)
          | inr (run, found) ↦ rw found (refl, h)
        ]
    finished_run-SyncPost run_id n (err e, w) h = (refl, h)

    -- What run_sync does after the start.
    abbrev go_on : Option ℕ → List Interval → IntegrityRun → Exec World (Option IntegrityRun)
    go_on deadline env run = do
      processed ← λ w.
          (let (r, w') = process_run b3 total_ram cfg pool_builds run.id deadline env w in
            mark_failed b3 total_ram cfg pool_builds run.id r w')
      finished_run b3 total_ram cfg pool_builds run.id processed

    after_start :
        (deadline : Option ℕ) (env : List Interval) (w : World) (r : Result IntegrityRun × World)
        → Starts w r
        → Resting w
        → SyncPost (continue r.0 (go_on deadline env) r.1)
    after_start deadline env w (err e, v) s h = (refl, rw s h)
    after_start deadline env w (ok run, v) s h = finished_run-SyncPost run.id (length v.files) _ (
        process_run-EndPost b3 total_ram cfg pool_builds run.id (length v.files) deadline env v
          (started-Going w run v s h))

    -- Where no run is under way and the counters of all runs are within bounds, a run comes to its
    -- end, however much time passes between its pages and whenever it is asked to stop there, as
    -- long as nothing else changes the tables and files meanwhile; and no run is under way then: it
    -- is completed, stopped or failed. The counters are still within bounds.
    pub run_sync-Resting :
        (deadline : Option ℕ) (env : List Interval) (w : World)
        → Resting w
        → (has_ended (run_sync b3 total_ram cfg pool_builds scope recover trigger deadline env w).0
            ≡ true)
          × Resting (run_sync b3 total_ram cfg pool_builds scope recover trigger deadline env w).1
    unfolding run_sync
    run_sync-Resting deadline env w h =
        after_start deadline env w (start_run scope recover trigger w) (start_run-Starts w) h

    refused :
        (deadline : Option ℕ) (env : List Interval) (w : World)
        → any_active w ≡ true
        → All IsCounted w.runs
        → All IsCounted
            (run_sync b3 total_ram cfg pool_builds scope recover trigger deadline env w).1.runs
    unfolding run_sync
    refused deadline env w busy counted =
        rw (start_run-refused scope recover trigger w busy) counted

    -- Where every run counts at most its processed files as recovered or in need of attention,
    -- each file once, every run still does after a run, the new one included, whether or not the
    -- run is refused, stopped or fails.
    pub run_sync-IsCounted :
        (deadline : Option ℕ) (env : List Interval) (w : World)
        → All IsCounted w.runs
        → All IsCounted
            (run_sync b3 total_ram cfg pool_builds scope recover trigger deadline env w).1.runs
    run_sync-IsCounted deadline env w counted = elim (Bool-cases (any_active w)) [
      | inl busy ↦ refused deadline env w busy counted
      | inr free ↦
          All-weaken RowRests IsCounted (λ r h. h.1) _
            (run_sync-Resting deadline env w (none_active w.runs free counted)).1
    ]
