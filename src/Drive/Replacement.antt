-- ===== src/Drive/Replacement.antt =====
-- The replacement of a failed drive: the row of the pair and the work that is queued.
use mathlib.Core.Path.{subst}
use bitprotector.Base.{
  ℕ, ◌≡◌, refl, sym, ap, ◌∙◌, Bool, true, false, inl, inr, none, some, is_some, List, [], ◌∷◌, ◌++◌,
  arith, if◌then◌else◌, Bool-cases, Option-cases, All, Result, ok, err, Exec, continue, pure,
  ignore, ◌>>=◌, ◌>>◌, suc,
}
use bitprotector.Base.Table.{find, select}
use bitprotector.Base.Table.Laws.{find-append, All-weaken}
use bitprotector.Fs.{FilePath, Fs}
use bitprotector.Db.Rows.{
  DrivePair, DriveRole, primary, secondary, DriveState, rebuilding, state_eq, Action, TrackedFile,
  SyncQueueItem, drive_replacement_assigned,
}
use bitprotector.Db.World.{World, log_event}
use bitprotector.Db.Files.{file_is, file_of_pair, list_tracked_files_of_pair}
use bitprotector.Db.Queue.{same_work, create_dedup_with_created, create_dedup_with_reason}
use bitprotector.Db.Queue.Dedup.{DedupPost, create_dedup_with_reason_cases, stored}
use bitprotector.Db.Pairs.{pair_is, set_runtime, update_drive_pair_runtime}
use bitprotector.Drive.Pair.{role_state, path_for_role, ensure_drive_root_marker}
use bitprotector.Drive.Ops.{
  queue_rebuild, assign_replacement_drive, rebuild_action_for_role, on_primary, on_secondary,
}
use bitprotector.Drive.Runtime.{
  get_drive_pair_found, get_drive_pair_missing, update_drive_pair_runtime_lem, with_pair,
}
use bitprotector.Drive.Lifecycle.{MovedRows, moved, edge_from}

-- The file is in the table.
abbrev pub IsTracked : List TrackedFile → TrackedFile → Type 0
IsTracked files f = is_some (find (file_is f.id) files) ≡ true

-- An open item with the action and no reason stands in the queue for the file.
abbrev pub IsQueued : Action → List SyncQueueItem → TrackedFile → Type 0
IsQueued action queue f = is_some (find (same_work f.id action none) queue) ≡ true

-- A step of the queueing: it succeeds, touches the queue alone, only adds to it, and leaves an item
-- for the file.
record IsStep (file_id : ℕ) (action : Action) (w : World)
    (r : Result (SyncQueueItem × Bool) × World) : Type 0 where
  item : SyncQueueItem
  created : Bool
  succeeded : r.0 ≡ ok (item, created)
  pairs_kept : r.1.pairs ≡ w.pairs
  files_kept : r.1.files ≡ w.files
  here : find (same_work file_id action none) r.1.queue ≡ some item
  grown :
      (q : SyncQueueItem → Bool)
      → is_some (find q w.queue) ≡ true
      → is_some (find q r.1.queue) ≡ true

grown_by_one :
    (q : SyncQueueItem → Bool) (l : List SyncQueueItem) (i : SyncQueueItem)
    → is_some (find q l) ≡ true
    → is_some (find q (l ++ i ∷ [])) ≡ true
grown_by_one q l i h = rw (find-append q l (i ∷ []), h) h

create_dedup-IsStep :
    (file_id : ℕ) (action : Action) (w : World)
    → is_some (find (file_is file_id) w.files) ≡ true
    → IsStep file_id action w (create_dedup_with_created file_id action w)
unfolding create_dedup_with_created
create_dedup-IsStep file_id action w tracked =
    step (create_dedup_with_reason file_id action none none w)
      (create_dedup_with_reason_cases file_id action none none w)
  where
    step :
        (r : Result (SyncQueueItem × Bool) × World)
        → DedupPost file_id action none none w r
        → IsStep file_id action w r
    step (ok (i, false), w') (found, same) = record {
      item = i;
      created = false;
      succeeded = refl;
      pairs_kept = rw same refl;
      files_kept = rw same refl;
      here = stored file_id action none none w w' i false (found, same);
      grown = λ q h. rw same h;
    }
    step (ok (i, true), w') (missing, new, more) = record {
      item = i;
      created = true;
      succeeded = refl;
      pairs_kept = rw more refl;
      files_kept = rw more refl;
      here = stored file_id action none none w w' i true (missing, new, more);
      grown = λ q h. rw more (grown_by_one q w.queue i h);
    }
    step (err e, w') (missing, untracked, same) = cc

-- The whole queueing, by its result.
record IsCovered (action : Action) (fs : List TrackedFile) (w : World) (r : Result ℕ × World)
    : Type 0 where
  count : ℕ
  succeeded : r.0 ≡ ok count
  pairs_kept : r.1.pairs ≡ w.pairs
  queued : All (IsQueued action r.1.queue) fs
  grown :
      (q : SyncQueueItem → Bool)
      → is_some (find q w.queue) ≡ true
      → is_some (find q r.1.queue) ≡ true

queue_rebuild_covers :
    (action : Action) (fs : List TrackedFile) (n : ℕ) (w : World)
    → All (IsTracked w.files) fs
    → IsCovered action fs w (queue_rebuild action fs n w)
unfolding queue_rebuild
queue_rebuild_covers action [] n w h = record {
  count = n;
  succeeded = refl;
  pairs_kept = refl;
  queued = tt;
  grown = λ q h. h;
}
queue_rebuild_covers action (f ∷ fs) n w (tracked, h) =
    let s = create_dedup-IsStep f.id action w tracked in
    let v = (create_dedup_with_created f.id action w).1 in
    let m = if s.created then suc n else n in
    let rest =
      queue_rebuild_covers action fs m v
        (subst (λ (t : List TrackedFile). All (IsTracked t) fs) (sym s.files_kept) h) in
    rw s.succeeded (record {
      count = rest.count;
      succeeded = rest.succeeded;
      pairs_kept = rest.pairs_kept ∙ s.pairs_kept;
      queued = (rest.grown (same_work f.id action none) (ap is_some s.here), rest.queued);
      grown = λ q k. rest.grown q (s.grown q k);
    })

All-IsTracked : (l : List TrackedFile) → All (IsTracked l) l
All-IsTracked [] = tt
All-IsTracked (f ∷ fs) = (
  ground arith,
  All-weaken (IsTracked fs) (IsTracked (f ∷ fs)) (λ g h. further g h) fs (All-IsTracked fs),
)
  where
    further : (g : TrackedFile) → IsTracked fs g → IsTracked (f ∷ fs) g
    further g h = ground arith

All-select :
    (P : TrackedFile → Type 0) (p : TrackedFile → Bool) (l : List TrackedFile)
    → All P l
    → All P (select p l)
All-select P p [] h = tt
All-select P p (f ∷ fs) h = elim (Bool-cases (p f)) [
  | inl kept ↦ rw kept (h.0, All-select P p fs h.1)
  | inr left ↦ rw left (All-select P p fs h.1)
]

-- How the assignment of a replacement ends.
abbrev pub AssignPost : ℕ → DriveRole → FilePath → World → Result (DrivePair × ℕ) × World → Type 0
AssignPost id role path w (ok (p', n), w') =
    (MovedRows id role w.pairs (ok p') w'.pairs)
    × (role_state p' role ≡ rebuilding)
    × (path_for_role p' role ≡ path)
    × (All (IsQueued (rebuild_action_for_role role) w'.queue) (select (file_of_pair id) w.files))
AssignPost id role path w (err e, w') = (w'.pairs ≡ w.pairs) × (w'.queue ≡ w.queue)

-- The row of the pair once the replacement is assigned.
abbrev assigned : DriveRole → FilePath → DrivePair → DrivePair
assigned role path =
    set_runtime (on_primary role path) (on_secondary role path) (on_primary role rebuilding)
      (on_secondary role rebuilding) none

assigned_lem :
    (role : DriveRole) (path : FilePath) (pair : DrivePair)
    → (role_state (assigned role path pair) role ≡ rebuilding)
      × (path_for_role (assigned role path pair) role ≡ path)
assigned_lem primary path pair = (refl, refl)
assigned_lem secondary path pair = (refl, refl)

module _ (id : ℕ) (role : DriveRole) (path : FilePath) (w : World) where
  -- The steps behind the marker, from a world with the tables of `w`.
  abbrev assign_rest : Exec World (DrivePair × ℕ)
  assign_rest = do
    updated ←
        update_drive_pair_runtime id (on_primary role path) (on_secondary role path)
          (on_primary role rebuilding) (on_secondary role rebuilding) none
    files ← list_tracked_files_of_pair id
    queued ← queue_rebuild (rebuild_action_for_role role) files 0
    ignore (log_event drive_replacement_assigned none)
    pure (updated, queued)

  assign_rest_lem :
      (pair : DrivePair) (fs : Fs)
      → find (pair_is id) w.pairs ≡ some pair
      → state_eq (role_state pair role) DriveState.failed ≡ true
      → AssignPost id role path w (assign_rest (record w { fs = fs }))
  unfolding list_tracked_files_of_pair log_event
  assign_rest_lem pair fs found state =
      let v : World = with_pair id (assigned role path) (record w { fs = fs }) in
      let c =
        queue_rebuild_covers (rebuild_action_for_role role) (select (file_of_pair id) w.files) 0 v
          (All-select (IsTracked w.files) (file_of_pair id) w.files (All-IsTracked w.files)) in
      let (state', path') = assigned_lem role path pair in
      rw
        (update_drive_pair_runtime_lem id (on_primary role path) (on_secondary role path)
          (on_primary role rebuilding) (on_secondary role rebuilding) none (record w { fs = fs })
          pair found)
        (rw c.succeeded (
          moved id role w rebuilding (on_primary role path) (on_secondary role path) none pair _
              found
              (edge_from id role w (role_state pair role) DriveState.failed rebuilding state refl)
              c.pairs_kept,
          state',
          path',
          c.queued,
        ))

  after_marker :
      (pair : DrivePair) (r : Result (Unit {0}) × Fs)
      → find (pair_is id) w.pairs ≡ some pair
      → state_eq (role_state pair role) DriveState.failed ≡ true
      → AssignPost id role path w (continue r.0 (λ u. assign_rest) (record w { fs = r.1 }))
  after_marker pair (ok u, fs) found state = assign_rest_lem pair fs found state
  after_marker pair (err e, fs) found state = (refl, refl)

  -- Where the assignment of a replacement drive succeeds, it returns the stored row of the pair
  -- with the state of that drive moved along an edge of the lifecycle to rebuilding, with the new
  -- path, and the other drive's state kept; the rows of the pair alone are changed; and an open
  -- item of the rebuild stands in the queue for every file of the pair. Where it fails, the tables
  -- of pairs and of queue items are as they were.
  pub assign_replacement_drive_lem :
      AssignPost id role path w (assign_replacement_drive id role path w)
  unfolding assign_replacement_drive
  assign_replacement_drive_lem = elim (Option-cases (find (pair_is id) w.pairs)) [
    | inl missing ↦ rw (get_drive_pair_missing id w missing) (refl, refl)
    | inr (pair, found) ↦
        rw (get_drive_pair_found id w pair found)
          (elim (Bool-cases (state_eq (role_state pair role) DriveState.failed)) [
            | inr other ↦ rw other (refl, refl)
            | inl state ↦
                rw state (after_marker pair (ensure_drive_root_marker path w.fs) found state)
          ])
  ]
