-- ===== src/SyncQueue/Resolve/Limits.antt =====
-- Which items the user can resolve, and what a resolution leaves as it was.
use bitprotector.Base.{
  continue, map, List, [], ◌∷◌, ap, ◌∙◌, Option-cases, ℕ, ◌≡◌, refl, Bool, true, false, ◌&&◌, inl,
  inr, Bool-cases, Option, some, Text, Result, ok, err, not_resolvable, not_pending, if◌then◌else◌,
  arith,
}
use bitprotector.Base.Table.{find, update_where}
use bitprotector.Fs.{FilePath, Fs}
use bitprotector.Checksum.Hasher.{Blake3}
use bitprotector.Db.Rows.{
  DrivePair, TrackedFile, SyncQueueItem, user_action_required, action_eq, is_pending,
}
use bitprotector.Db.World.{World, log_event}
use bitprotector.Db.Files.{file_is, update_tracked_file_mirror_status}
use bitprotector.Db.Queue.{item_is, get_sync_queue_item, update_sync_queue_status}
use bitprotector.SyncQueue.Resolve.{
  resolve_queue_item, complete_resolution, apply_resolution, provide_new_file, provide_new,
}

-- An item that does not wait for the user, or is no longer pending, is refused by every resolution,
-- and nothing is changed: the error tells which of the two it is, the action first.
pub resolve_queue_item_guarded :
    (b3 : Blake3) (id : ℕ) (resolution : Text) (new_file : Option FilePath) (i : SyncQueueItem)
    (w : World)
    → find (item_is id) w.queue ≡ some i
    → action_eq i.action user_action_required && is_pending i.status ≡ false
    → resolve_queue_item b3 id resolution new_file w
      ≡ (err (if action_eq i.action user_action_required then not_pending else not_resolvable), w)
unfolding resolve_queue_item get_sync_queue_item
resolve_queue_item_guarded b3 id resolution new_file i w found closed =
    elim (Bool-cases (action_eq i.action user_action_required)) [
      | inr other ↦ rw (found, other) refl
      | inl waits ↦
          rw
            (
              found,
              waits,
              rest (action_eq i.action user_action_required) (is_pending i.status) waits closed,
            )
            refl
    ]
  where
    rest : (a b : Bool) → a ≡ true → a && b ≡ false → b ≡ false
    rest a b h k = ground arith

map-update_where :
    {A B : Type 0} (g : A → B) (p : A → Bool) (f : A → A)
    → ((a : A) → g (f a) ≡ g a)
    → (l : List A) → map g (update_where p f l) ≡ map g l
map-update_where g p f same [] = refl
map-update_where g p f same (a ∷ rest) = elim (Bool-cases (p a)) [
  | inl hit ↦ rw (hit, same a, map-update_where g p f same rest) refl
  | inr miss ↦ rw (miss, map-update_where g p f same rest) refl
]

-- The stored checksums of the tracked files.
abbrev pub stored_checksums : World → List Text
stored_checksums w = map (λ (f : TrackedFile). f.checksum) w.files

get_item_keeps : (id : ℕ) (w : World) → (get_sync_queue_item id w).1 ≡ w
unfolding get_sync_queue_item
get_item_keeps id w = elim (Option-cases (find (item_is id) w.queue)) [
  | inl missing ↦ rw missing refl
  | inr (i, found) ↦ rw found refl
]

complete_resolution_keeps :
    (item : SyncQueueItem) (file : TrackedFile) (w : World)
    → stored_checksums (complete_resolution item file w).1 ≡ stored_checksums w
unfolding complete_resolution update_sync_queue_status update_tracked_file_mirror_status log_event
complete_resolution_keeps item file w =
    ap stored_checksums (get_item_keeps item.id _)
    ∙ map-update_where (λ (f : TrackedFile). f.checksum) (file_is file.id)
        (λ f. record f { is_mirrored = true }) (λ f. refl) w.files

-- The resolution that puts a new file in the place of both copies leaves every stored checksum as it
-- was, also that of the file, whether it succeeds or fails.
pub apply_resolution_keeps_checksums :
    (b3 : Blake3) (item : SyncQueueItem) (file : TrackedFile) (pair : DrivePair)
    (new_file : Option FilePath) (w : World)
    → stored_checksums (apply_resolution b3 item file pair new_file provide_new w).1
      ≡ stored_checksums w
unfolding apply_resolution
apply_resolution_keeps_checksums b3 item file pair new_file w =
    after (provide_new_file pair file new_file w.fs)
  where
    after :
        (r : Result (Unit {0}) × Fs)
        → stored_checksums
            (continue r.0 (λ u. complete_resolution item file) (record w { fs = r.1 })).1
          ≡ stored_checksums w
    after (ok u, fs) = complete_resolution_keeps item file (record w { fs = fs })
    after (err e, fs) = refl
