-- ===== src/Db/Queue/Creation.antt =====
-- What a deduplicated creation of a queue item comes to, in terms of the rows.
use bitprotector.Base.{
  ap, sym, ◌∙◌, ==_iff, All, Bool, Bool-cases, List, Option, Result, Text, [], arith, err, false,
  inl, inr, is_some, none, ok, option_eq, refl, some, true, ℕ, ◌&&◌, ◌++◌, ◌+◌, ◌==◌, ◌∷◌, ◌≡◌, ◌⊎◌,
}
use bitprotector.Db.World.{World}
use bitprotector.Db.Rows.{
  Action, Message, QueueStatus, SyncQueueItem, action_eq, in_progress, is_open, pending,
}
use bitprotector.Db.Queue.Dedup.{
  DedupPost, action_eq_refl, action_eq→eq, create_dedup_with_reason_cases, option_eq_refl,
  option_eq→eq,
}
use bitprotector.Db.Queue.{create_dedup_with_reason, same_work}
use bitprotector.Db.Files.{file_is}
use bitprotector.Base.Table.{find}

-- The row is pending or under way, for this file, action and reason.
abbrev pub IsOpenWork : ℕ → Action → Option Text → SyncQueueItem → Type 0
IsOpenWork file_id action reason i =
    (i.tracked_file_id ≡ file_id)
    × (i.action ≡ action)
    × (i.reason ≡ reason)
    × ((i.status ≡ pending) ⊎ (i.status ≡ in_progress))

abbrev pub IsOtherWork : ℕ → Action → Option Text → SyncQueueItem → Type 0
IsOtherWork file_id action reason i = ¬ IsOpenWork file_id action reason i

-- The row is the first of the list that is such work.
pub record IsFirstWork (file_id : ℕ) (action : Action) (reason : Option Text) (i : SyncQueueItem)
    (l : List SyncQueueItem) : Type 0 where
  pub before : List SyncQueueItem
  pub after : List SyncQueueItem
  pub split : l ≡ before ++ i ∷ after
  pub others : All (IsOtherWork file_id action reason) before
  pub open_work : IsOpenWork file_id action reason i

-- How a creation ends: with the first open row for the work and nothing changed; with a new row
-- behind the others, where none is open for the work; or as a failure, where the file is not
-- tracked and no row is open for the work, with nothing changed.
abbrev pub CreationPost :
    ℕ
    → Action
    → Option Text
    → Option Message
    → World
    → Result (SyncQueueItem × Bool) × World
    → Type 0
CreationPost file_id action reason message w (ok (i, false), w') =
    IsFirstWork file_id action reason i w.queue × (w' ≡ w)
CreationPost file_id action reason message w (ok (i, true), w') =
    All (IsOtherWork file_id action reason) w.queue
    × IsOpenWork file_id action reason i
    × (i.id ≡ w.next_item_id)
    × (i.status ≡ pending)
    × (i.error_message ≡ message)
    × (w' ≡ record w { queue = w.queue ++ i ∷ []; next_item_id = w.next_item_id + 1 })
CreationPost file_id action reason message w (err e, w') =
    All (IsOtherWork file_id action reason) w.queue
    × (is_some (find (file_is file_id) w.files) ≡ false)
    × (w' ≡ w)

no_such_row : {x : SyncQueueItem} → ¬ (◌≡◌ {A = Option SyncQueueItem} none (some x))
no_such_row e = cc

is_open→or : (s : QueueStatus) → is_open s ≡ true → (s ≡ pending) ⊎ (s ≡ in_progress)
is_open→or s h = ground arith

or→is_open : (s : QueueStatus) → (s ≡ pending) ⊎ (s ≡ in_progress) → is_open s ≡ true
or→is_open s (inl e) = ground arith
or→is_open s (inr e) = ground arith

four_parts :
    (a b c d : Bool) → a && b && c && d ≡ true → (a ≡ true) × (b ≡ true) × (c ≡ true) × (d ≡ true)
four_parts a b c d h = ground arith

module _ (file_id : ℕ) (action : Action) (reason : Option Text) where
  same_work→IsOpenWork :
      (i : SyncQueueItem)
      → same_work file_id action reason i ≡ true
      → IsOpenWork file_id action reason i
  same_work→IsOpenWork i h =
      let (x, y, o, z) =
        four_parts (i.tracked_file_id == file_id) (action_eq i.action action) (is_open i.status)
          (option_eq i.reason reason) h in
      (
        (==_iff i.tracked_file_id file_id).0 x,
        action_eq→eq i.action action y,
        option_eq→eq i.reason reason z,
        is_open→or i.status o,
      )

  IsOpenWork→same_work :
      (i : SyncQueueItem)
      → IsOpenWork file_id action reason i
      → same_work file_id action reason i ≡ true
  IsOpenWork→same_work i (x, y, z, o) =
      rw ((==_iff i.tracked_file_id file_id).1 x, y, z, or→is_open i.status o)
        (rw (action_eq_refl action, option_eq_refl reason) refl)

  miss→IsOtherWork :
      (i : SyncQueueItem)
      → same_work file_id action reason i ≡ false
      → IsOtherWork file_id action reason i
  miss→IsOtherWork i miss h = let hit = IsOpenWork→same_work i h in cc

  find-tail :
      (x : SyncQueueItem) (xs : List SyncQueueItem)
      → same_work file_id action reason x ≡ false
      → find (same_work file_id action reason) (x ∷ xs) ≡ find (same_work file_id action reason) xs
  find-tail x xs miss = rw miss refl

  find-head :
      (x : SyncQueueItem) (xs : List SyncQueueItem)
      → same_work file_id action reason x ≡ true
      → find (same_work file_id action reason) (x ∷ xs) ≡ some x
  find-head x xs hit = rw hit refl

  none→others :
      (l : List SyncQueueItem)
      → find (same_work file_id action reason) l ≡ none
      → All (IsOtherWork file_id action reason) l
  none→others [] h = tt
  none→others (x ∷ xs) h = elim (Bool-cases (same_work file_id action reason x)) [
    | inl hit ↦ absurd (no_such_row (sym h ∙ find-head x xs hit))
    | inr miss ↦ (miss→IsOtherWork x miss, none→others xs (sym (find-tail x xs miss) ∙ h))
  ]

  some→first :
      (l : List SyncQueueItem) (i : SyncQueueItem)
      → find (same_work file_id action reason) l ≡ some i
      → IsFirstWork file_id action reason i l
  some→first [] i h = cc
  some→first (x ∷ xs) i h = elim (Bool-cases (same_work file_id action reason x)) [
    | inl hit ↦
        let here : some x ≡ some i = sym (find-head x xs hit) ∙ h in
        let same : x ≡ i = cc in
        record {
          before = [];
          after = xs;
          split = ap (λ (y : SyncQueueItem). y ∷ xs) same;
          others = tt;
          open_work =
              same_work→IsOpenWork i (ap (same_work file_id action reason) (sym same) ∙ hit);
        }
    | inr miss ↦
        let rest = some→first xs i (sym (find-tail x xs miss) ∙ h) in
        record {
          before = x ∷ rest.before;
          after = rest.after;
          split = ap (λ (l : List SyncQueueItem). x ∷ l) rest.split;
          others = (miss→IsOtherWork x miss, rest.others);
          open_work = rest.open_work;
        }
  ]

  -- A creation returns the first row that is open for the same file, action and reason, flagged as
  -- not created and with nothing changed, if there is one. Otherwise it appends a new pending row
  -- for them, with the next id and the message, and flags it as created. It fails only for a file
  -- that is not tracked and has no such row, with nothing changed.
  pub create_dedup_with_reason_lem :
      (message : Option Message) (w : World)
      → CreationPost file_id action reason message w
          (create_dedup_with_reason file_id action reason message w)
  create_dedup_with_reason_lem message w =
      restated (create_dedup_with_reason file_id action reason message w)
        (create_dedup_with_reason_cases file_id action reason message w)
    where
      restated :
          (r : Result (SyncQueueItem × Bool) × World)
          → DedupPost file_id action reason message w r
          → CreationPost file_id action reason message w r
      restated (ok (i, false), w') (found, same) = (some→first w.queue i found, same)
      restated (ok (i, true), w') (missing, new, more) = (
        none→others w.queue missing,
        rw new (refl, refl, refl, inl refl),
        rw new refl,
        rw new refl,
        rw new refl,
        more,
      )
      restated (err e, w') (missing, untracked, same) =
          (none→others w.queue missing, untracked, same)
