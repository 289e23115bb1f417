-- ===== src/Db/Queue/Views.antt =====
-- db/repository.rs: the plain creations of queue items, the statements on the mirror items of a
-- file, and the queries that count and list the queue.
use bitprotector.Db.Runs.Results.{requested_page, at_least_one, clamp}
use bitprotector.Db.World.{World}
use bitprotector.Db.Rows.{
  Action, Message, QueueStatus, SyncQueueItem, action_eq, in_progress, is_in_progress, is_open,
  is_pending, pending,
}
use bitprotector.Db.Queue.{
  create_sync_queue_item_with_reason_and_error, is_mirror_action, open_mirror_item, update_queue,
}
use bitprotector.Db.Listing.{when_given}
use bitprotector.Base.Table.{count_where, select}
use bitprotector.Base.{
  Bool, Exec, List, Option, Text, false, gets, if◌then◌else◌, length, ltb, modify, none, pure, some,
  text_eq, true, ℕ, ◌&&◌, ◌==◌, ◌>>=◌, ◌>>◌,
}

unfoldable pub create_sync_queue_item : ℕ → Action → Exec World SyncQueueItem
create_sync_queue_item file_id action =
    create_sync_queue_item_with_reason_and_error file_id action none none

unfoldable pub create_sync_queue_item_with_reason :
    ℕ → Action → Option Text → Exec World SyncQueueItem
create_sync_queue_item_with_reason file_id action reason =
    create_sync_queue_item_with_reason_and_error file_id action reason none

-- `reason = ?`, which no row without a reason satisfies.
abbrev pub has_reason : Text → Option Text → Bool
has_reason reason none = false
has_reason reason (some r) = text_eq r reason

abbrev pub open_with_reason : ℕ → Action → Text → SyncQueueItem → Bool
open_with_reason file_id action reason i =
    (i.tracked_file_id == file_id)
    && action_eq i.action action
    && has_reason reason i.reason
    && is_open i.status

unfoldable pub has_pending_sync_queue_item_with_reason : ℕ → Action → Text → Exec World Bool
has_pending_sync_queue_item_with_reason file_id action reason =
    gets (λ w. ltb 0 (count_where (open_with_reason file_id action reason) w.queue))

abbrev pub pending_mirror_item : ℕ → SyncQueueItem → Bool
pending_mirror_item file_id i =
    (i.tracked_file_id == file_id) && is_mirror_action i.action && is_pending i.status

unfoldable pub start_pending_mirror_queue_for_file : ℕ → Exec World ℕ
start_pending_mirror_queue_for_file file_id = do
  affected ← gets (λ w. count_where (pending_mirror_item file_id) w.queue)
  modify (
      update_queue (pending_mirror_item file_id)
        (λ i. record i { status = in_progress; error_message = none; completed_at = none }))
  pure affected

unfoldable pub fail_pending_mirror_queue_for_file : ℕ → Message → Exec World ℕ
fail_pending_mirror_queue_for_file file_id message = do
  affected ← gets (λ w. count_where (open_mirror_item file_id) w.queue)
  modify (λ w.
      update_queue (open_mirror_item file_id)
        (λ i. record i {
          status = QueueStatus.failed;
          error_message = some message;
          completed_at = some w.now;
        })
        w)
  pure affected

unfoldable pub count_active_sync_queue : Exec World ℕ
count_active_sync_queue = gets (λ w. count_where (λ (i : SyncQueueItem). is_open i.status) w.queue)

unfoldable pub count_in_progress_sync_queue : Exec World ℕ
count_in_progress_sync_queue =
    gets (λ w. count_where (λ (i : SyncQueueItem). is_in_progress i.status) w.queue)

unfoldable pub has_active_sync_for_file : ℕ → Exec World Bool
has_active_sync_for_file file_id = gets (λ w. ltb 0 (
    count_where (λ (i : SyncQueueItem). (i.tracked_file_id == file_id) && is_in_progress i.status)
      w.queue))

abbrev pub status_eq : QueueStatus → QueueStatus → Bool
status_eq pending pending = true
status_eq in_progress in_progress = true
status_eq QueueStatus.completed QueueStatus.completed = true
status_eq QueueStatus.failed QueueStatus.failed = true
status_eq _ _ = false

abbrev pub count_of : QueueStatus → List SyncQueueItem → ℕ
count_of s l = count_where (λ (i : SyncQueueItem). status_eq i.status s) l

-- The map from a status to its count, where a status that no row has is no key.
unfoldable pub count_sync_queue_by_status : Exec World (QueueStatus → Option ℕ)
count_sync_queue_by_status =
    gets (λ w s. if count_of s w.queue == 0 then none else some (count_of s w.queue))

unfoldable pub list_sync_queue : Option QueueStatus → ℕ → ℕ → Exec World (List SyncQueueItem × ℕ)
list_sync_queue status page per_page = gets (λ w.
    let rows =
      select (λ (i : SyncQueueItem). when_given status (λ s. status_eq i.status s)) w.queue in
    (requested_page (at_least_one page) (clamp per_page) rows, length rows))
