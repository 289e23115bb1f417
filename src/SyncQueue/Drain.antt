-- ===== src/SyncQueue/Drain.antt =====
-- core/sync_queue.rs: process_all_pending. Each drive pair has a worker that takes its items in
-- order; which worker goes next, and how long it takes, is chosen by the environment.
pub mod Blocked
use bitprotector.Base.{
  ℕ, zero, suc, ◌+◌, Bool, true, false, not, ◌&&◌, ◌||◌, Option, none, some, List, [], ◌∷◌, ◌++◌,
  map, ◌==◌, leb, if◌then◌else◌, Error, Result, ok, err, Exec,
}
use bitprotector.Checksum.Hasher.{Blake3}
use bitprotector.Db.Rows.{Action, user_action_required, action_eq, SyncQueueItem}
use bitprotector.Db.World.{World}
use bitprotector.Db.Queue.{
  RankedItem, list_pending_sync_queue_with_drive_pair, requeue_in_progress_sync_queue,
}
use bitprotector.Db.Settings.{
  try_acquire_sync_processing_lock, heartbeat_sync_processing_lock, release_sync_processing_lock,
}
use bitprotector.SyncQueue.Process.{process_item}

-- The items of one drive pair that its worker has yet to take.
pub record Group : Type 0 where
  pub drive_pair_id : ℕ
  pub items : List SyncQueueItem

-- groups.entry(drive_pair_id).or_default().push(item)
unfoldable pub push_item : ℕ → SyncQueueItem → List Group → List Group
push_item pair_id item [] = record { drive_pair_id = pair_id; items = item ∷ [] } ∷ []
push_item pair_id item (g ∷ gs) =
    if g.drive_pair_id == pair_id
    then record g { items = g.items ++ item ∷ [] } ∷ gs
    else g ∷ push_item pair_id item gs

unfoldable pub group_items : List Group → List RankedItem → List Group
group_items groups [] = groups
group_items groups (r ∷ rs) = group_items (push_item r.drive_pair_id r.item groups) rs

unfoldable pub all_skipped : List RankedItem → Bool
all_skipped [] = true
all_skipped (r ∷ rs) = action_eq r.item.action user_action_required && all_skipped rs

-- `Instant::now() >= deadline`, where there is one.
abbrev pub past_deadline : Option ℕ → World → Bool
past_deadline none w = false
past_deadline (some deadline) w = leb deadline w.now

-- The worker that goes next, by its place, and the seconds that pass before it does.
abbrev pub Schedule : Type 0
Schedule = List (ℕ × ℕ)

abbrev pub advance : ℕ → World → World
advance seconds w = record w { now = w.now + seconds }

-- The drop of the guard.
abbrev pub release : Option (Result ℕ) × World → Option (Result ℕ) × World
release (none, w) = (none, w)
release (some r, w) = (some r, (release_sync_processing_lock w).1)

-- What the workers share: the state of the program and the count of processed items.
pub record Pass : Type 0 where
  pub world : World
  pub processed : ℕ

abbrev pub page_size : ℕ
page_size = 1000

abbrev pub listed : Result (List RankedItem) → List RankedItem
listed (ok l) = l
listed (err e) = []

unfoldable pub pending_page : World → List RankedItem
pending_page w = listed (list_pending_sync_queue_with_drive_pair page_size w).0

abbrev pub is_empty_page : List RankedItem → Bool
is_empty_page [] = true
is_empty_page (r ∷ rs) = false

module _ (b3 : Blake3) (stop_by : Option ℕ) where
  -- One round of a worker's loop; `none` where it breaks.
  unfoldable pub worker_round : SyncQueueItem → Pass → Bool × Pass
  worker_round item p =
      if action_eq item.action user_action_required
      then (true, p)
      else if p.world.settings.queue_paused || past_deadline stop_by p.world
      then (false, p)
      else (true, record { world = (process_item b3 item p.world).1; processed = suc p.processed })

  unfoldable pub step_items : List SyncQueueItem → Pass → List SyncQueueItem × Pass
  step_items [] p = ([], p)
  step_items (i ∷ is) p = let (goes_on, p') = worker_round i p in (if goes_on then is else [], p')

  unfoldable pub worker_step : Group → Pass → Group × Pass
  worker_step g p = let (items, p') = step_items g.items p in (record g { items = items }, p')

  -- The worker at a place makes a round; nothing happens where there is no such worker.
  unfoldable pub step_at : ℕ → List Group → Pass → List Group × Pass
  step_at k [] p = ([], p)
  step_at zero (g ∷ gs) p = let (g', p') = worker_step g p in (g' ∷ gs, p')
  step_at (suc k) (g ∷ gs) p = let (gs', p') = step_at k gs p in (g ∷ gs', p')

  unfoldable pub run_schedule : Schedule → List Group → Pass → List Group × Pass
  run_schedule [] gs p = (gs, p)
  run_schedule ((k, seconds) ∷ rest) gs p =
      let (gs', p') = step_at k gs (record p { world = advance seconds p.world }) in
      run_schedule rest gs' p'

  -- The end of the scope: every worker that is left runs to its end.
  unfoldable pub run_items : List SyncQueueItem → Pass → Pass
  run_items [] p = p
  run_items (i ∷ is) p =
      let (goes_on, p') = worker_round i p in
      let rest = run_items is p' in if goes_on then rest else p'

  unfoldable pub run_groups : List Group → Pass → Pass
  run_groups [] p = p
  run_groups (g ∷ gs) p = run_groups gs (run_items g.items p)

  -- The scope of threads, under the schedule that the system happens to choose.
  unfoldable pub run_workers : Schedule → List Group → Pass → Pass
  run_workers schedule gs p = let (gs', p') = run_schedule schedule gs p in run_groups gs' p'

  -- The loop, on fuel; `none` where it still runs when the fuel is spent. The schedules of the
  -- passes are taken in turn.
  unfoldable pub drain_loop : ℕ → (ℕ → Schedule) → Pass → Option (Result ℕ) × World
  drain_loop zero schedules p = (none, p.world)
  drain_loop (suc fuel) schedules p =
      let w = (heartbeat_sync_processing_lock p.world).1 in
      let items = pending_page w in
      let next : Pass =
        run_workers (schedules fuel) (group_items [] items) (record p { world = w }) in
      let rest = drain_loop fuel schedules next in
      if w.settings.queue_paused || past_deadline stop_by w
      then (some (ok p.processed), w)
      else if is_empty_page items
      then (some (ok p.processed), w)
      else if all_skipped items
      then (some (ok next.processed), next.world)
      else rest

  -- A second invocation while the lock is held is a no-op; the guard releases the lock at the end.
  unfoldable pub process_all_pending :
      ℕ → (ℕ → Bool) → ℕ → (ℕ → Schedule) → World → Option (Result ℕ) × World
  process_all_pending pid alive fuel schedules w =
      let (acquired, w') = try_acquire_sync_processing_lock pid alive 300 w in
      elim acquired [
        | err e ↦ (some (err e), w')
        | ok false ↦ (some (ok 0), w')
        | ok true ↦ release (
            drain_loop fuel schedules
              (record { world = (requeue_in_progress_sync_queue w').1; processed = 0 }))
      ]
