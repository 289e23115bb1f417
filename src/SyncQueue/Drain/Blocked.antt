-- ===== src/SyncQueue/Drain/Blocked.antt =====
-- A drain whose pending items all belong to quiescing pairs.
use mathlib.Core.Path.{subst}
use bitprotector.Base.{
  ℕ, zero, suc, ◌≡◌, refl, sym, ap, ◌∙◌, Bool, true, false, ◌||◌, inl, inr, Option, none, some,
  List, [], ◌∷◌, arith, ◌==◌, if◌then◌else◌, Bool-cases, All, Result, ok,
}
use bitprotector.Base.Table.{find}
use bitprotector.Base.Table.Laws.{All-append}
use bitprotector.Checksum.Hasher.{Blake3}
use bitprotector.Db.Rows.{DrivePair, TrackedFile, SyncQueueItem}
use bitprotector.Db.World.{World}
use bitprotector.Db.Files.{file_is, get_tracked_file}
use bitprotector.Db.Pairs.{pair_is}
use bitprotector.Db.Queue.{RankedItem, list_pending_sync_queue_with_drive_pair}
use bitprotector.Db.Settings.{heartbeat_sync_processing_lock}
use bitprotector.Drive.Pair.{is_quiescing}
use bitprotector.Drive.Ops.{must_fail_over, maybe_emergency_failover, load_operational_pair}
use bitprotector.Drive.Runtime.{get_drive_pair_found}
use bitprotector.SyncQueue.Process.{process_item}
use bitprotector.SyncQueue.Drain.{
  Group, push_item, group_items, all_skipped, Schedule, advance, Pass, pending_page, is_empty_page,
  worker_round, step_items, worker_step, step_at, run_schedule, run_items, run_groups, run_workers,
  drain_loop,
}

-- The item's file is tracked in a pair that is quiescing.
abbrev pub IsBlocked : World → SyncQueueItem → Type 0
IsBlocked w item =
    (file : TrackedFile) × (pair : DrivePair) × (find (file_is item.tracked_file_id) w.files
      ≡ some file)
    × (find (pair_is file.drive_pair_id) w.pairs ≡ some pair)
    × (is_quiescing pair ≡ true)

-- A quiescing pair is never failed over.
quiescing_is_spared :
    (w : World) (pair : DrivePair) → is_quiescing pair ≡ true → must_fail_over w pair ≡ false
unfolding is_quiescing must_fail_over
quiescing_is_spared w pair h = ground arith

pub process_item_blocked :
    (b3 : Blake3) (item : SyncQueueItem) (w : World)
    → IsBlocked w item
    → process_item b3 item w ≡ (ok tt, w)
unfolding process_item get_tracked_file load_operational_pair maybe_emergency_failover
process_item_blocked b3 item w (file, pair, hf, hp, hq) =
    rw (hf, get_drive_pair_found file.drive_pair_id w pair hp, quiescing_is_spared w pair hq, hq)
      refl

-- Two worlds with the same work in them: time has passed, or the lock has been refreshed.
pub record SameWork (w w' : World) : Type 0 where
  pub pairs : w'.pairs ≡ w.pairs
  pub files : w'.files ≡ w.files
  pub queue : w'.queue ≡ w.queue
  pub paused : w'.settings.queue_paused ≡ w.settings.queue_paused

SameWork-IsBlocked :
    (w w' : World) (item : SyncQueueItem) → SameWork w w' → IsBlocked w item → IsBlocked w' item
SameWork-IsBlocked w w' item s (file, pair, hf, hp, hq) =
    (file, pair, rw s.files hf, rw s.pairs hp, hq)

goes_on :
    {A : Type 0} (a b c : Bool) (x y z r : A)
    → a ≡ false
    → b ≡ false
    → c ≡ false
    → (if a then x else if b then y else if c then z else r) ≡ r
goes_on a b c x y z r ha hb hc = rw (ha, hb, hc) refl

module _ (b3 : Blake3) (w : World) where
  round_blocked :
      (item : SyncQueueItem) (p : Pass)
      → SameWork w p.world
      → IsBlocked w item
      → SameWork w (worker_round b3 none item p).1.world
  unfolding worker_round
  round_blocked item p s h =
      ground (arith, process_item_blocked b3 item p.world (SameWork-IsBlocked w p.world item s h))

  run_items_blocked :
      (items : List SyncQueueItem) (p : Pass)
      → SameWork w p.world
      → All (IsBlocked w) items
      → SameWork w (run_items b3 none items p).world
  unfolding run_items
  run_items_blocked [] p s h = s
  run_items_blocked (i ∷ is) p s h = elim (Bool-cases (worker_round b3 none i p).0) [
    | inl more ↦
        rw more (run_items_blocked is (worker_round b3 none i p).1 (round_blocked i p s h.0) h.1)
    | inr last ↦ rw last (round_blocked i p s h.0)
  ]

  abbrev AllBlocked : List Group → Type 0
  AllBlocked = All (λ (g : Group). All (IsBlocked w) g.items)

  run_groups_blocked :
      (gs : List Group) (p : Pass)
      → SameWork w p.world
      → AllBlocked gs
      → SameWork w (run_groups b3 none gs p).world
  unfolding run_groups
  run_groups_blocked [] p s h = s
  run_groups_blocked (g ∷ gs) p s h =
      run_groups_blocked gs (run_items b3 none g.items p) (run_items_blocked g.items p s h.0) h.1

  step_items-IsBlocked :
      (items : List SyncQueueItem) (p : Pass)
      → SameWork w p.world
      → All (IsBlocked w) items
      → All (IsBlocked w) (step_items b3 none items p).0
        × SameWork w (step_items b3 none items p).1.world
  unfolding step_items
  step_items-IsBlocked [] p s h = (tt, s)
  step_items-IsBlocked (i ∷ is) p s h = elim (Bool-cases (worker_round b3 none i p).0) [
    | inl more ↦ rw more (h.1, round_blocked i p s h.0)
    | inr last ↦ rw last (tt, round_blocked i p s h.0)
  ]

  step_at_blocked :
      (k : ℕ) (gs : List Group) (p : Pass)
      → SameWork w p.world
      → AllBlocked gs
      → AllBlocked (step_at b3 none k gs p).0 × SameWork w (step_at b3 none k gs p).1.world
  unfolding step_at worker_step
  step_at_blocked k [] p s h = (tt, s)
  step_at_blocked zero (g ∷ gs) p s h =
      let (h', s') = step_items-IsBlocked g.items p s h.0 in ((h', h.1), s')
  step_at_blocked (suc k) (g ∷ gs) p s h =
      let (h', s') = step_at_blocked k gs p s h.1 in ((h.0, h'), s')

  advance-SameWork : (seconds : ℕ) (v : World) → SameWork w v → SameWork w (advance seconds v)
  advance-SameWork seconds v s = record {
    pairs = s.pairs;
    files = s.files;
    queue = s.queue;
    paused = s.paused;
  }

  run_schedule_blocked :
      (schedule : Schedule) (gs : List Group) (p : Pass)
      → SameWork w p.world
      → AllBlocked gs
      → AllBlocked (run_schedule b3 none schedule gs p).0
        × SameWork w (run_schedule b3 none schedule gs p).1.world
  unfolding run_schedule
  run_schedule_blocked [] gs p s h = (h, s)
  run_schedule_blocked ((k, seconds) ∷ rest) gs p s h =
      let later : Pass = record p { world = advance seconds p.world } in
      let (h', s') = step_at_blocked k gs later (advance-SameWork seconds p.world s) h in
      run_schedule_blocked rest (step_at b3 none k gs later).0 (step_at b3 none k gs later).1 s' h'

  run_workers_blocked :
      (schedule : Schedule) (gs : List Group) (p : Pass)
      → SameWork w p.world
      → AllBlocked gs
      → SameWork w (run_workers b3 none schedule gs p).world
  unfolding run_workers
  run_workers_blocked schedule gs p s h =
      let (h', s') = run_schedule_blocked schedule gs p s h in
      run_groups_blocked (run_schedule b3 none schedule gs p).0
        (run_schedule b3 none schedule gs p).1 s' h'

  push_item_blocked :
      (id : ℕ) (item : SyncQueueItem) (gs : List Group)
      → IsBlocked w item
      → AllBlocked gs
      → AllBlocked (push_item id item gs)
  unfolding push_item
  push_item_blocked id item [] b h = ((b, tt), tt)
  push_item_blocked id item (g ∷ gs) b h = elim (Bool-cases (g.drive_pair_id == id)) [
    | inl here ↦ rw here (All-append (IsBlocked w) g.items (item ∷ []) h.0 (b, tt), h.1)
    | inr later ↦ rw later (h.0, push_item_blocked id item gs b h.1)
  ]

  group_items_blocked :
      (gs : List Group) (rs : List RankedItem)
      → AllBlocked gs
      → All (λ (r : RankedItem). IsBlocked w r.item) rs
      → AllBlocked (group_items gs rs)
  unfolding group_items
  group_items_blocked gs [] h b = h
  group_items_blocked gs (r ∷ rs) h b =
      group_items_blocked (push_item r.drive_pair_id r.item gs) rs
        (push_item_blocked r.drive_pair_id r.item gs b.0 h) b.1

  pending_page_same : (v : World) → SameWork w v → pending_page v ≡ pending_page w
  unfolding pending_page list_pending_sync_queue_with_drive_pair
  pending_page_same v s = rw (s.queue, s.files) refl

  heartbeat-SameWork : (v : World) → SameWork w v → SameWork w (heartbeat_sync_processing_lock v).1
  unfolding heartbeat_sync_processing_lock
  heartbeat-SameWork v s = record {
    pairs = s.pairs;
    files = s.files;
    queue = s.queue;
    paused = s.paused;
  }

  not_empty : (items : List RankedItem) → all_skipped items ≡ false → is_empty_page items ≡ false
  unfolding all_skipped
  not_empty [] h = cc
  not_empty (r ∷ rs) h = refl

  -- If the queue is not paused and has no deadline, every pending item of the first page belongs
  -- to a quiescing pair, and at least one is not waiting for the user, then no number of passes
  -- under any schedule ends the drain, and the queue and the pairs are as they were.
  pub drain_loop_blocked :
      (fuel : ℕ) (schedules : ℕ → Schedule) (p : Pass)
      → w.settings.queue_paused ≡ false
      → All (λ (r : RankedItem). IsBlocked w r.item) (pending_page w)
      → all_skipped (pending_page w) ≡ false
      → SameWork w p.world
      → ((drain_loop b3 none fuel schedules p).0 ≡ none)
        × SameWork w (drain_loop b3 none fuel schedules p).1
  unfolding drain_loop
  drain_loop_blocked zero schedules p going blocked some_work s = (refl, s)
  drain_loop_blocked (suc fuel) schedules p going blocked some_work s =
      let v = (heartbeat_sync_processing_lock p.world).1 in
      let sv = heartbeat-SameWork p.world s in
      let page = pending_page_same v sv in
      let skipped = ap all_skipped page ∙ some_work in
      let next =
        run_workers b3 none (schedules fuel) (group_items [] (pending_page v))
          (record p { world = v }) in
      subst (λ (r : Option (Result ℕ) × World). (r.0 ≡ none) × SameWork w r.1)
        (sym (
          goes_on (v.settings.queue_paused || false) (is_empty_page (pending_page v))
            (all_skipped (pending_page v)) _ _ _ _
            (ap (λ (b : Bool). b || false) (sv.paused ∙ going)) (not_empty (pending_page v) skipped)
            skipped))
        (drain_loop_blocked fuel schedules next going blocked some_work (
          run_workers_blocked (schedules fuel) (group_items [] (pending_page v))
            (record p { world = v }) sv
            (group_items_blocked [] (pending_page v) tt
              (subst (All (λ (r : RankedItem). IsBlocked w r.item)) (sym page) blocked))))
