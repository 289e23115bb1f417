-- ===== src/Drive/Rebuild.antt =====
-- The end of a rebuild: when a rebuilt drive becomes active again.
use bitprotector.Db.Rows.{
  DriveState, DrivePair, DriveRole, primary, secondary, active, rebuilding, state_eq, Action,
  TrackedFile, SyncQueueItem, action_eq,
}
use bitprotector.Base.{
  sym, ℕ, ◌≡◌, refl, ◌∙◌, Bool, true, false, ◌&&◌, inl, inr, Option, none, some, List, [], ◌∷◌,
  arith, Bool-cases, Option-cases, ltb, Result, ok, err,
}
use bitprotector.Base.Table.{find, update_where, count_where}
use bitprotector.Db.World.{World, log_event}
use bitprotector.Db.Files.{
  mark_drive_pair_unmirrored, list_tracked_files_of_pair, update_tracked_file_mirror_status,
}
use bitprotector.Db.Queue.{
  count_sync_queue_items_for_drive_pair_action, item_of_pair, is_unfinished,
}
use bitprotector.Db.Pairs.{pair_is, set_runtime}
use bitprotector.Drive.Pair.{role_state}
use bitprotector.Drive.Ops.{
  mark_all_mirrored, mirrored_again, rebuilt_role, finalize_rebuild,
  maybe_finalize_rebuild_for_action, on_primary, on_secondary,
}
use bitprotector.Drive.Runtime.{
  get_drive_pair_found, get_drive_pair_missing, update_drive_pair_runtime_lem,
  pairs-mark_all_mirrored, pairs-refresh, with_pair,
}
use bitprotector.Drive.Lifecycle.{MovedRows, moved, edge_from}

-- No item with the action is unfinished, failed ones included, for the files of the pair.
abbrev pub IsRebuilt : ℕ → Action → World → Type 0
IsRebuilt id action w =
    count_where
      (λ (i : SyncQueueItem).
        action_eq i.action action && item_of_pair w.files id i && is_unfinished i.status)
      w.queue
    ≡ 0

-- The stored row of the pair says that the drive is being rebuilt.
abbrev pub IsRebuilding : ℕ → DriveRole → World → Type 0
IsRebuilding id role w =
    (pair : DrivePair) × (find (pair_is id) w.pairs ≡ some pair)
    × (role_state pair role ≡ rebuilding)

-- The action rebuilds a drive of the pair, and its work is done.
abbrev pub IsLastOfRebuild : ℕ → Action → World → Type 0
IsLastOfRebuild id action w =
    (role : DriveRole) × (rebuilt_role action ≡ some role)
    × IsRebuilding id role w
    × IsRebuilt id action w

-- How the end of an action is taken: as the end of the rebuild of a drive; as nothing, where there
-- is none; or as a failure, where the pair is not stored.
abbrev pub RebuildPost : ℕ → Action → World → Result (Option DrivePair) × World → Type 0
RebuildPost id action w (ok (some p'), w') =
    (role : DriveRole) × (rebuilt_role action ≡ some role)
    × IsRebuilding id role w
    × (IsRebuilt id action w)
    × (role_state p' role ≡ active)
    × (MovedRows id role w.pairs (ok p') w'.pairs)
RebuildPost id action w (ok none, w') = (¬ IsLastOfRebuild id action w) × (w' ≡ w)
RebuildPost id action w (err e, w') = (find (pair_is id) w.pairs ≡ none) × (w' ≡ w)

mark_all_mirrored_ok : (fs : List TrackedFile) (w : World) → (mark_all_mirrored fs w).0 ≡ ok tt
unfolding mark_all_mirrored update_tracked_file_mirror_status
mark_all_mirrored_ok [] w = refl
mark_all_mirrored_ok (f ∷ fs) w =
    mark_all_mirrored_ok fs (update_tracked_file_mirror_status f.id true w).1

mirrored_again_ok : (b : Bool) (id : ℕ) (w : World) → (mirrored_again b id w).0 ≡ ok tt
unfolding list_tracked_files_of_pair
mirrored_again_ok false id w = refl
mirrored_again_ok true id w = mark_all_mirrored_ok _ w

pairs-mirrored_again : (b : Bool) (id : ℕ) (w : World) → (mirrored_again b id w).1.pairs ≡ w.pairs
unfolding list_tracked_files_of_pair
pairs-mirrored_again false id w = refl
pairs-mirrored_again true id w = pairs-mark_all_mirrored _ w

state_after :
    (role : DriveRole) (pair : DrivePair)
    → role_state
        (set_runtime none none
          (on_primary role active)
          (on_secondary role active)
          (on_primary role primary)
          pair)
        role
      ≡ active
state_after primary pair = refl
state_after secondary pair = refl

ltb_zero : (n : ℕ) → ltb 0 n ≡ false → n ≡ 0
ltb_zero n h = ground arith

module _ (id : ℕ) (role : DriveRole) (w : World) (pair : DrivePair)
    (found : find (pair_is id) w.pairs ≡ some pair) where
  -- The row of the pair when the rebuild is over.
  abbrev rebuilt : DrivePair → DrivePair
  rebuilt =
      set_runtime none none (on_primary role active) (on_secondary role active)
        (on_primary role primary)

  finalize_rebuild_lem :
      ((finalize_rebuild id role w).0 ≡ ok (some (rebuilt pair)))
      × ((finalize_rebuild id role w).1.pairs ≡ update_where (pair_is id) rebuilt w.pairs)
  unfolding finalize_rebuild mark_drive_pair_unmirrored log_event
  finalize_rebuild_lem =
      rw
        (update_drive_pair_runtime_lem id none none (on_primary role active)
          (on_secondary role active) (on_primary role primary) w pair found)
        (rw
          (mirrored_again_ok
            (state_eq (rebuilt pair).primary_state active
              && state_eq (rebuilt pair).secondary_state active)
            id (mark_drive_pair_unmirrored id (with_pair id rebuilt w)).1)
          (refl, pairs-refresh _ _ ∙ pairs-mirrored_again _ _ _))

not_some : {o : Option DriveRole} {r : DriveRole} → o ≡ none → ¬ (o ≡ some r)
not_some p q = cc

not_over : (n : ℕ) → ltb 0 n ≡ true → ¬ (n ≡ 0)
not_over n h e = ground arith

state_eq→eq : (a b : DriveState) → state_eq a b ≡ true → a ≡ b
state_eq→eq a b h = ground arith

not_rebuilding :
    (id : ℕ) (action : Action) (w : World) (pair : DrivePair) (role : DriveRole)
    → find (pair_is id) w.pairs ≡ some pair
    → rebuilt_role action ≡ some role
    → state_eq (role_state pair role) rebuilding ≡ false
    → ¬ IsLastOfRebuild id action w
not_rebuilding id action w pair role found rebuilds idle (role', same, (p, there, state), done) =
    let e : some role' ≡ some role = sym same ∙ rebuilds in
    let d : some p ≡ some pair = sym there ∙ found in
    let f : role_state pair role ≡ rebuilding = cc in
    let g : state_eq (role_state pair role) rebuilding ≡ true = rw f refl in cc

-- When an action has been carried out for a pair that is stored: if the stored row says that the
-- action's drive is being rebuilt, and no item of the action is unfinished, failed ones included,
-- the drive becomes active, the other one keeps its state, the rows of the pair alone are changed
-- and the row is returned. Otherwise nothing is returned and nothing changed. The call fails only
-- for a pair that is not stored, with nothing changed.
pub maybe_finalize_rebuild_for_action_lem :
    (id : ℕ) (action : Action) (w : World)
    → RebuildPost id action w (maybe_finalize_rebuild_for_action id action w)
unfolding maybe_finalize_rebuild_for_action count_sync_queue_items_for_drive_pair_action
maybe_finalize_rebuild_for_action_lem id action w =
    elim (Option-cases (find (pair_is id) w.pairs)) [
      | inl missing ↦ rw (get_drive_pair_missing id w missing) (missing, refl)
      | inr (pair, found) ↦
          rw (get_drive_pair_found id w pair found) (elim (Option-cases (rebuilt_role action)) [
            | inl other ↦ rw other ((λ h. not_some other h.1), refl)
            | inr (role, rebuilds) ↦
                rw rebuilds (elim (Bool-cases (state_eq (role_state pair role) rebuilding)) [
                  | inr idle ↦
                      rw idle
                        ((λ h. not_rebuilding id action w pair role found rebuilds idle h), refl)
                  | inl state ↦
                      rw state
                        (elim (Bool-cases (
                          ltb 0 (
                            count_where
                              (λ (i : SyncQueueItem).
                                action_eq i.action action
                                && item_of_pair w.files id i
                                && is_unfinished i.status)
                              w.queue))) [
                                | inl work ↦ rw work ((λ h. not_over _ work h.3), refl)
                                | inr over ↦
                                    let (r, rows) = finalize_rebuild_lem id role w pair found in
                                    rw (over, r)
                                      (
                                        role,
                                        rebuilds,
                                        (pair, found, state_eq→eq _ _ state),
                                        ltb_zero _ over,
                                        state_after role pair,
                                        moved id role w active none none (on_primary role primary)
                                            pair _ found
                                            (edge_from id role w (role_state pair role) rebuilding
                                              active state refl)
                                            rows,
                                      )
                              ])
                ])
          ])
    ]
