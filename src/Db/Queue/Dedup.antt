-- ===== src/Db/Queue/Dedup.antt =====
-- The deduplicated creation of queue items, and the requeueing of interrupted ones.
use mathlib.Core.Path.{subst}
use bitprotector.Base.{
  ℕ, suc, ◌+◌, ◌≤◌, ◌≡◌, refl, sym, ap, ◌∙◌, Bool, true, false, ◌&&◌, Option, none, some, List, [],
  ◌∷◌, ◌++◌, map, inl, inr, arith, Bool-cases, Option-cases, Text, ==_iff, text_eq_iff,
  text_eq_refl, option_eq, ◌==◌, is_some, if◌then◌else◌, Result, ok, err,
}
use bitprotector.Base.Table.{find, count_where, update_where}
use bitprotector.Base.Table.Laws.{find-append}
use bitprotector.Db.Rows.{
  Action, action_eq, pending, is_open, is_in_progress, is_pending, Message, SyncQueueItem,
}
use bitprotector.Db.World.{World}
use bitprotector.Db.Files.{file_is}
use bitprotector.Db.Queue.{
  new_item, same_work, create_dedup_with_reason, create_sync_queue_item_with_reason_and_error,
  requeue_in_progress_sync_queue,
}

pub action_eq_refl : (a : Action) → action_eq a a ≡ true
action_eq_refl a = ground arith

pub option_eq_refl : (r : Option Text) → option_eq r r ≡ true
option_eq_refl none = refl
option_eq_refl (some t) = text_eq_refl t

same_work-new_item :
    (id file_id : ℕ) (action : Action) (reason : Option Text) (message : Option Message)
    → same_work file_id action reason (new_item id file_id action reason message) ≡ true
same_work-new_item id file_id action reason message =
    rw (action_eq_refl action, option_eq_refl reason) (ground arith)

-- How a creation ends: an item that was open is returned with nothing changed; otherwise a new
-- pending item with the next id is appended, unless the file is not tracked.
abbrev pub DedupPost :
    ℕ
    → Action
    → Option Text
    → Option Message
    → World
    → Result (SyncQueueItem × Bool) × World
    → Type 0
DedupPost file_id action reason message w (ok (i, false), w') =
    (find (same_work file_id action reason) w.queue ≡ some i) × (w' ≡ w)
DedupPost file_id action reason message w (ok (i, true), w') =
    (find (same_work file_id action reason) w.queue ≡ none)
    × (i ≡ new_item w.next_item_id file_id action reason message)
    × (w' ≡ record w { queue = w.queue ++ i ∷ []; next_item_id = w.next_item_id + 1 })
DedupPost file_id action reason message w (err e, w') =
    (find (same_work file_id action reason) w.queue ≡ none)
    × (is_some (find (file_is file_id) w.files) ≡ false)
    × (w' ≡ w)

module _ (file_id : ℕ) (action : Action) (reason : Option Text) where
  -- The branches of a creation: it returns the first open item for the same file, action and reason, flagged as not
  -- created and with nothing changed, if there is one; otherwise it appends a new pending item with
  -- the next id and flags it as created; it fails only for a file that is not tracked, with nothing
  -- changed.
  pub create_dedup_with_reason_cases :
      (message : Option Message) (w : World)
      → DedupPost file_id action reason message w
          (create_dedup_with_reason file_id action reason message w)
  unfolding create_dedup_with_reason create_sync_queue_item_with_reason_and_error
  create_dedup_with_reason_cases message w =
      elim (Option-cases (find (same_work file_id action reason) w.queue)) [
        | inr (i, found) ↦ rw (found, create_dedup_with_reason) (found, refl)
        | inl missing ↦ elim (Bool-cases (is_some (find (file_is file_id) w.files))) [
          | inl tracked ↦ rw (missing, tracked, create_dedup_with_reason) (missing, refl, refl)
          | inr untracked ↦
              rw (missing, untracked, create_dedup_with_reason) (missing, untracked, refl)
        ]
      ]

  returned :
      (message : Option Message) (w : World) (i : SyncQueueItem)
      → find (same_work file_id action reason) w.queue ≡ some i
      → create_dedup_with_reason file_id action reason message w ≡ (ok (i, false), w)
  unfolding create_dedup_with_reason
  returned message w i found = rw (found, create_dedup_with_reason) refl

  -- After a creation, the item that it returned is the one that counts as the work.
  pub stored :
      (message : Option Message) (w w' : World) (i : SyncQueueItem) (created : Bool)
      → DedupPost file_id action reason message w (ok (i, created), w')
      → find (same_work file_id action reason) w'.queue ≡ some i
  stored message w w' i false (found, same) = rw (same, found) refl
  stored message w w' i true (missing, new, grown) =
      rw
        (
          grown,
          find-append (same_work file_id action reason) w.queue (i ∷ []),
          missing,
          new,
          same_work-new_item w.next_item_id file_id action reason message,
        )
        refl

  -- After a creation that succeeded, a second one for the same file, action and reason, with
  -- whatever message, returns the same item, flagged as not created, and changes nothing.
  pub create_dedup_with_reason_twice :
      (message message' : Option Message) (w w' : World) (i : SyncQueueItem) (created : Bool)
      → create_dedup_with_reason file_id action reason message w ≡ (ok (i, created), w')
      → create_dedup_with_reason file_id action reason message' w' ≡ (ok (i, false), w')
  create_dedup_with_reason_twice message message' w w' i created h = returned message' w' i (
      stored message w w' i created (
        subst (DedupPost file_id action reason message w) h
          (create_dedup_with_reason_cases message w)))

-- No two open rows stand for the same work.
abbrev pub IsDeduplicated : List SyncQueueItem → Type 0
IsDeduplicated l =
    (file_id : ℕ) (action : Action) (reason : Option Text)
    → count_where (same_work file_id action reason) l ≤ 1

count_where_unfound :
    (p : SyncQueueItem → Bool) (l : List SyncQueueItem) → find p l ≡ none → count_where p l ≡ 0
count_where_unfound p [] h = refl
count_where_unfound p (x ∷ xs) h = ground (arith, count_where_unfound p xs)

count_where-append_one :
    (p : SyncQueueItem → Bool) (l : List SyncQueueItem) (i : SyncQueueItem)
    → count_where p (l ++ i ∷ []) ≡ (if p i then suc (count_where p l) else count_where p l)
count_where-append_one p [] i = ground arith
count_where-append_one p (x ∷ xs) i = ground (arith, count_where-append_one p xs i)

pub action_eq→eq : (a b : Action) → action_eq a b ≡ true → a ≡ b
action_eq→eq a b h = ground arith

pub option_eq→eq : (a b : Option Text) → option_eq a b ≡ true → a ≡ b
option_eq→eq none none h = refl
option_eq→eq none (some b) h = cc
option_eq→eq (some a) none h = cc
option_eq→eq (some a) (some b) h = ap some ((text_eq_iff a b).0 h)

-- A new item that counts as a work is of that work's file, action and reason.
same_work→eq :
    (f f' : ℕ) (a a' : Action) (r r' : Option Text) (id : ℕ) (m : Option Message)
    → same_work f' a' r' (new_item id f a r m) ≡ true
    → (f ≡ f') × (a ≡ a') × (r ≡ r')
same_work→eq f f' a a' r r' id m h =
    let (x, y, z) = parts (f == f') (action_eq a a') (option_eq r r') h in
    ((==_iff f f').0 x, action_eq→eq a a' y, option_eq→eq r r' z)
  where
    parts : (x y z : Bool) → (x && y && true && z ≡ true) → (x ≡ true) × (y ≡ true) × (z ≡ true)
    parts x y z h = ground arith

-- A deduplicated creation, on whatever row set without two open rows for the same work, leaves one
-- without them.
pub create_dedup_with_reason-IsDeduplicated :
    (file_id : ℕ) (action : Action) (reason : Option Text) (message : Option Message) (w : World)
    → IsDeduplicated w.queue
    → IsDeduplicated (create_dedup_with_reason file_id action reason message w).1.queue
create_dedup_with_reason-IsDeduplicated file_id action reason message w d =
    after (create_dedup_with_reason file_id action reason message w)
      (create_dedup_with_reason_cases file_id action reason message w)
  where
    grown :
        (i : SyncQueueItem)
        → find (same_work file_id action reason) w.queue ≡ none
        → i ≡ new_item w.next_item_id file_id action reason message
        → IsDeduplicated (w.queue ++ i ∷ [])
    grown i missing new f a r =
        rw (count_where-append_one (same_work f a r) w.queue i)
          (elim (Bool-cases (same_work f a r i)) [
            | inr other ↦ rw other (d f a r)
            | inl same ↦
                let (x, y, z) =
                  same_work→eq file_id f action a reason r w.next_item_id message
                    (ap (same_work f a r) (sym new) ∙ same) in
                rw
                  (
                    same,
                    sym x,
                    sym y,
                    sym z,
                    count_where_unfound (same_work file_id action reason) w.queue missing,
                  )
                  (omega arith)
          ])

    after :
        (r : Result (SyncQueueItem × Bool) × World)
        → DedupPost file_id action reason message w r
        → IsDeduplicated r.1.queue
    after (ok (i, false), w') (found, same) = rw same d
    after (ok (i, true), w') (missing, new, more) = rw more (grown i missing new)
    after (err e, w') (missing, untracked, same) = rw same d

-- The rows after an interrupted invocation's items have been requeued: none is in progress, every
-- item that was open is pending, and no row is lost.
pub requeue_in_progress_sync_queue_lem :
    (w : World)
    → let l = (requeue_in_progress_sync_queue w).1.queue in
      (count_where (λ (i : SyncQueueItem). is_in_progress i.status) l ≡ 0)
      × (count_where (λ (i : SyncQueueItem). is_pending i.status) l
          ≡ count_where (λ (i : SyncQueueItem). is_open i.status) w.queue)
      × (map (λ (i : SyncQueueItem). i.id) l ≡ map (λ (i : SyncQueueItem). i.id) w.queue)
unfolding requeue_in_progress_sync_queue
requeue_in_progress_sync_queue_lem w = rows w.queue
  where
    requeued : List SyncQueueItem → List SyncQueueItem
    requeued l =
        update_where (λ i. is_in_progress i.status)
          (λ i. record i { status = pending; error_message = none; completed_at = none }) l

    rows :
        (l : List SyncQueueItem)
        → (count_where (λ (i : SyncQueueItem). is_in_progress i.status) (requeued l) ≡ 0)
          × (count_where (λ (i : SyncQueueItem). is_pending i.status) (requeued l)
              ≡ count_where (λ (i : SyncQueueItem). is_open i.status) l)
          × (map (λ (i : SyncQueueItem). i.id) (requeued l) ≡ map (λ (i : SyncQueueItem). i.id) l)
    rows [] = (refl, refl, refl)
    rows (i ∷ is) = ground (arith, rows is)
