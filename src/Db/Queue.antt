-- ===== src/Db/Queue.antt =====
-- db/repository.rs: the statements on sync_queue.
pub mod Dedup
pub mod Creation
pub mod Views
use bitprotector.Base.{
  ℕ, zero, suc, ◌+◌, Bool, true, false, not, ◌&&◌, Option, none, some, List, [], ◌∷◌, ◌++◌, ◌==◌,
  Exec, pure, gets, or_raise, modify, raise_if, ◌>>=◌, ◌>>◌, Text, option_eq, take, length, is_some,
  row_not_found,
}
use bitprotector.Base.Table.{find, select, update_where, delete_where, count_where}
use bitprotector.Db.Rows.{
  Action, mirror, adopt_mirror, action_eq, QueueStatus, pending, in_progress, completed, is_open,
  is_pending, is_in_progress, Message, SyncQueueItem, TrackedFile,
}
use bitprotector.Db.World.{World}
use bitprotector.Db.Files.{file_is}

abbrev pub item_is : ℕ → SyncQueueItem → Bool
item_is id i = i.id == id

abbrev pub update_queue : (SyncQueueItem → Bool) → (SyncQueueItem → SyncQueueItem) → World → World
update_queue p f w = record w { queue = update_where p f w.queue }

unfoldable pub get_sync_queue_item : ℕ → Exec World SyncQueueItem
get_sync_queue_item id = do
  found ← gets (λ w. find (item_is id) w.queue)
  or_raise found row_not_found

abbrev pub new_item : ℕ → ℕ → Action → Option Text → Option Message → SyncQueueItem
new_item id file_id action reason message = record {
  id = id;
  tracked_file_id = file_id;
  action = action;
  status = pending;
  error_message = message;
  reason = reason;
  completed_at = none;
}

-- The INSERT is refused by the foreign key if the file is not tracked.
unfoldable pub create_sync_queue_item_with_reason_and_error :
    ℕ → Action → Option Text → Option Message → Exec World SyncQueueItem
create_sync_queue_item_with_reason_and_error file_id action reason message = do
  tracked ← gets (λ w. is_some (find (file_is file_id) w.files))
  raise_if (not tracked) row_not_found
  id ← gets (λ w. w.next_item_id)
  modify (λ w. record w {
    queue = w.queue ++ new_item id file_id action reason message ∷ [];
    next_item_id = id + 1;
  })
  pure (new_item id file_id action reason message)

-- The rows that count as the same work.
abbrev pub same_work : ℕ → Action → Option Text → SyncQueueItem → Bool
same_work file_id action reason i =
    (i.tracked_file_id == file_id)
    && action_eq i.action action
    && is_open i.status
    && option_eq i.reason reason

-- create_sync_queue_item_dedup_with_reason_and_error_with_created
unfoldable pub create_dedup_with_reason :
    ℕ → Action → Option Text → Option Message → Exec World (SyncQueueItem × Bool)
create_dedup_with_reason file_id action reason message w =
    elim (find (same_work file_id action reason) w.queue) [
      | some i ↦ pure (i, false) w
      | none ↦
          (do
            i ← create_sync_queue_item_with_reason_and_error file_id action reason message
            pure (i, true))
            w
    ]

-- create_sync_queue_item_dedup_with_created
unfoldable pub create_dedup_with_created : ℕ → Action → Exec World (SyncQueueItem × Bool)
create_dedup_with_created file_id action = create_dedup_with_reason file_id action none none

-- create_sync_queue_item_dedup
unfoldable pub create_dedup : ℕ → Action → Exec World (Option SyncQueueItem)
create_dedup file_id action = do
  r ← create_dedup_with_reason file_id action none none
  pure (some r.0)

abbrev is_completed : QueueStatus → Bool
is_completed completed = true
is_completed _ = false

unfoldable pub clear_completed_sync_queue : Exec World ℕ
clear_completed_sync_queue = do
  deleted ← gets (λ w. count_where (λ i. is_completed i.status) w.queue)
  modify (λ w. record w { queue = delete_where (λ i. is_completed i.status) w.queue })
  pure deleted

unfoldable pub requeue_in_progress_sync_queue : Exec World (Unit {0})
requeue_in_progress_sync_queue = modify (
    update_queue (λ i. is_in_progress i.status)
      (λ i. record i { status = pending; error_message = none; completed_at = none }))

-- completed_at is set where the status ends the item.
abbrev pub stamp : QueueStatus → ℕ → Option ℕ
stamp pending now = none
stamp in_progress now = none
stamp completed now = some now
stamp QueueStatus.failed now = some now

unfoldable pub update_sync_queue_status : ℕ → QueueStatus → Option Message → Exec World (Unit {0})
update_sync_queue_status id status message = modify (λ w.
    update_queue (item_is id)
      (λ i. record i {
        status = status;
        error_message = message;
        completed_at = stamp status w.now;
      })
      w)

abbrev pub is_mirror_action : Action → Bool
is_mirror_action mirror = true
is_mirror_action adopt_mirror = true
is_mirror_action _ = false

abbrev pub open_mirror_item : ℕ → SyncQueueItem → Bool
open_mirror_item file_id i =
    (i.tracked_file_id == file_id) && is_mirror_action i.action && is_open i.status

-- complete_pending_mirror_queue_for_file, with the number of rows that changed.
unfoldable pub complete_pending_mirror_queue_for_file : ℕ → Exec World ℕ
complete_pending_mirror_queue_for_file file_id = do
  affected ← gets (λ w. count_where (open_mirror_item file_id) w.queue)
  modify (λ w.
      update_queue (open_mirror_item file_id)
        (λ i. record i { status = completed; error_message = none; completed_at = some w.now }) w)
  pure affected

-- tracked_file_id IN (SELECT id FROM tracked_files WHERE drive_pair_id = pair)
abbrev pub item_of_pair : List TrackedFile → ℕ → SyncQueueItem → Bool
item_of_pair files pair_id i =
    is_some (
      find (λ (f : TrackedFile). (f.id == i.tracked_file_id) && (f.drive_pair_id == pair_id)) files)

unfoldable pub fail_pending_sync_queue_for_drive_pair : ℕ → Message → Exec World (Unit {0})
fail_pending_sync_queue_for_drive_pair pair_id message = modify (λ w.
    update_queue (λ i. is_open i.status && item_of_pair w.files pair_id i)
      (λ i. record i {
        status = QueueStatus.failed;
        error_message = some message;
        completed_at = some w.now;
      })
      w)

-- status IN ('pending', 'in_progress', 'failed'), the statuses of its one caller
abbrev pub is_unfinished : QueueStatus → Bool
is_unfinished pending = true
is_unfinished in_progress = true
is_unfinished completed = false
is_unfinished QueueStatus.failed = true

unfoldable pub count_sync_queue_items_for_drive_pair_action : ℕ → Action → Exec World ℕ
count_sync_queue_items_for_drive_pair_action pair_id action = gets (λ w.
    count_where
      (λ i. action_eq i.action action && item_of_pair w.files pair_id i && is_unfinished i.status)
      w.queue)

-- A pending item with the pair of its file (0 for none) and its place among the pair's items.
pub record RankedItem : Type 0 where
  pub drive_pair_id : ℕ
  pub pair_rank : ℕ
  pub item : SyncQueueItem

abbrev pub pair_of_file : Option TrackedFile → ℕ
pair_of_file none = 0
pair_of_file (some f) = f.drive_pair_id

-- ROW_NUMBER() OVER (PARTITION BY drive_pair_id ORDER BY id), by a scan over the pending rows
-- with those already ranked.
unfoldable pub rank_items :
    List TrackedFile → List RankedItem → List SyncQueueItem → List RankedItem
rank_items files ranked [] = ranked
rank_items files ranked (i ∷ is) =
    let pair_id = pair_of_file (find (file_is i.tracked_file_id) files) in
    rank_items files
      (ranked
        ++ record {
          drive_pair_id = pair_id;
          pair_rank = count_where (λ (r : RankedItem). r.drive_pair_id == pair_id) ranked + 1;
          item = i;
        }
          ∷ [])
      is

-- ORDER BY pair_rank, id: the ranks from `rank` on, `rounds` of them.
unfoldable pub by_rank : ℕ → ℕ → List RankedItem → List RankedItem
by_rank zero rank ranked = []
by_rank (suc rounds) rank ranked =
    select (λ r. r.pair_rank == rank) ranked ++ by_rank rounds (rank + 1) ranked

unfoldable pub list_pending_sync_queue_with_drive_pair : ℕ → Exec World (List RankedItem)
list_pending_sync_queue_with_drive_pair limit = gets (λ w.
    let pending_rows = select (λ (i : SyncQueueItem). is_pending i.status) w.queue in
    take limit (by_rank (length pending_rows) 1 (rank_items w.files [] pending_rows)))
