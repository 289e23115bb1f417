-- ===== src/Drive/Failover.antt =====
-- The emergency failover: when it happens and what it leaves behind.
use bitprotector.Db.Rows.{
  state_eq, DrivePair, DriveState, active, TrackedFile, SyncQueueItem, QueueStatus, is_open,
  failover_required, Message, drive_failover,
}
use bitprotector.Base.{
  ap, Bool, not, ◌⊎◌, ℕ, ◌≡◌, refl, true, false, ◌&&◌, inl, inr, none, some, List, [], ◌∷◌, arith,
  Bool-cases, Result, ok,
}
use bitprotector.Drive.Pair.{
  missing_expected_root_marker, path_for_role, role_state, standby_role, active_path,
  path_is_available,
}
use bitprotector.Base.Table.{find, update_where, count_where}
use bitprotector.Db.World.{World, log_event}
use bitprotector.Db.Pairs.{pair_is, set_runtime}
use bitprotector.Db.Files.{file_of_pair, mark_drive_pair_unmirrored}
use bitprotector.Db.Queue.{fail_pending_sync_queue_for_drive_pair, item_of_pair}
use bitprotector.Drive.Ops.{
  must_fail_over, fail_over, maybe_emergency_failover, on_primary, on_secondary,
  refresh_pair_virtual_paths,
}
use bitprotector.Drive.Runtime.{
  get_drive_pair_found, with_pair, find-with_pair, update_drive_pair_runtime_lem,
  refresh_pair-SameTables,
}
use bitprotector.VirtualPath.Frame.{SameTables}

-- No file of the pair counts as mirrored, and no work of the pair is pending or under way.
abbrev pub IsDetached : ℕ → World → Type 0
IsDetached id w =
    (count_where (λ (f : TrackedFile). file_of_pair id f && f.is_mirrored) w.files ≡ 0)
    × (count_where (λ (i : SyncQueueItem). is_open i.status && item_of_pair w.files id i) w.queue
        ≡ 0)

-- The two statements that detach a pair.
unfoldable pub detach : ℕ → Message → World → World
detach id m w = (fail_pending_sync_queue_for_drive_pair id m (mark_drive_pair_unmirrored id w).1).1

unmirrored :
    (id : ℕ) (l : List TrackedFile)
    → count_where
        (λ (f : TrackedFile). file_of_pair id f && f.is_mirrored)
        (update_where (file_of_pair id) (λ f. record f { is_mirrored = false }) l)
      ≡ 0
unmirrored id [] = refl
unmirrored id (f ∷ fs) = ground (arith, unmirrored id fs)

closed :
    (files : List TrackedFile) (id : ℕ) (m : Message) (now : ℕ) (l : List SyncQueueItem)
    → count_where
        (λ (i : SyncQueueItem). is_open i.status && item_of_pair files id i)
        (update_where
          (λ i. is_open i.status && item_of_pair files id i)
          (λ i. record i {
            status = QueueStatus.failed;
            error_message = some m;
            completed_at = some now;
          })
          l)
      ≡ 0
closed files id m now [] = refl
closed files id m now (i ∷ is) = elim (Bool-cases (is_open i.status && item_of_pair files id i)) [
  | inl hit ↦ rw hit (closed files id m now is)
  | inr miss ↦ rw (miss, miss) (closed files id m now is)
]

pub detach-IsDetached : (id : ℕ) (m : Message) (w : World) → IsDetached id (detach id m w)
unfolding detach mark_drive_pair_unmirrored fail_pending_sync_queue_for_drive_pair
detach-IsDetached id m w = (unmirrored id w.files, closed _ id m w.now w.queue)

SameTables-IsDetached :
    (id : ℕ) (w w' : World) → SameTables w w' → IsDetached id w → IsDetached id w'
SameTables-IsDetached id w w' h d = rw (h.1, h.3) d

-- The row after a failover: the drive that was active is failed, the other one is active.
abbrev pub failed_over : DrivePair → DrivePair
failed_over pair =
    set_runtime none none (on_primary pair.active_role DriveState.failed)
      (on_secondary pair.active_role DriveState.failed) (some (standby_role pair)) pair

-- What a failover has done: it returns the stored row, in which the other drive is the active
-- one; that drive is active and was reachable; and the pair is detached.
pub record IsFailedOver (pair : DrivePair) (w : World) (r : Result DrivePair × World) : Type 0 where
  pub returned : r.0 ≡ ok (failed_over pair)
  pub stored : find (pair_is pair.id) r.1.pairs ≡ some (failed_over pair)
  pub detached : IsDetached pair.id r.1
  pub target_active : role_state (failed_over pair) (failed_over pair).active_role ≡ active
  pub target_available : path_is_available w.fs (active_path (failed_over pair)) ≡ true
  pub source_failed : role_state (failed_over pair) pair.active_role ≡ DriveState.failed

-- The pair has lost its active drive, and the other one can take over: the drive counted as active,
-- its root is not there or lacks the marker that it should have, and the other drive is active and
-- its root is there.
pub record IsLost (pair : DrivePair) (w : World) : Type 0 where
  pub source_active : role_state pair pair.active_role ≡ active
  pub source_gone :
      (path_is_available w.fs (path_for_role pair pair.active_role) ≡ false)
      ⊎ (missing_expected_root_marker w.fs pair pair.active_role ≡ true)
  pub target_active : role_state pair (standby_role pair) ≡ active
  pub target_available : path_is_available w.fs (path_for_role pair (standby_role pair)) ≡ true

all_four :
    (a b c d : Bool) → a && b && (c && d) ≡ true → (a ≡ true) × (b ≡ true) × (c ≡ true) × (d ≡ true)
all_four a b c d h = ground arith

all_hold : (a b c d : Bool) → a ≡ true → b ≡ true → c ≡ true → d ≡ true → a && b && (c && d) ≡ true
all_hold a b c d p q r s = ground arith

state_eq→eq : (a b : DriveState) → state_eq a b ≡ true → a ≡ b
state_eq→eq a b h = ground arith

lost_active : (a m : Bool) → (a ≡ false) ⊎ (m ≡ true) → not (a && not m) ≡ true
lost_active a m (inl p) = ground arith
lost_active a m (inr p) = ground arith

gone : (a m : Bool) → not (a && not m) ≡ true → (a ≡ false) ⊎ (m ≡ true)
gone a m h = ground arith

contradictory : (b : Bool) → b ≡ true → ¬ (b ≡ false)
contradictory b p q = cc

must_fail_over-IsLost :
    (pair : DrivePair) (w : World) → must_fail_over w pair ≡ true → IsLost pair w
unfolding must_fail_over
must_fail_over-IsLost pair w h =
    let (lost, from, to, there) =
      all_four
        (not (
          path_is_available w.fs (active_path pair)
          && not (missing_expected_root_marker w.fs pair pair.active_role)))
        (state_eq (role_state pair pair.active_role) active)
        (state_eq (role_state pair (standby_role pair)) active)
        (path_is_available w.fs (path_for_role pair (standby_role pair))) h in
    record {
      source_active = state_eq→eq _ _ from;
      source_gone = gone _ _ lost;
      target_active = state_eq→eq _ _ to;
      target_available = there;
    }

IsLost-must_fail_over :
    (pair : DrivePair) (w : World) → IsLost pair w → must_fail_over w pair ≡ true
unfolding must_fail_over
IsLost-must_fail_over pair w h =
    all_hold _ _ _ _ (lost_active _ _ h.source_gone) (ap (λ s. state_eq s active) h.source_active)
      (ap (λ s. state_eq s active) h.target_active) h.target_available

target :
    (pair : DrivePair) (w : World)
    → IsLost pair w
    → (role_state (failed_over pair) (failed_over pair).active_role ≡ active)
      × (path_is_available w.fs (active_path (failed_over pair)) ≡ true)
      × (role_state (failed_over pair) pair.active_role ≡ DriveState.failed)
target pair w h = let a = h.target_active in let b = h.target_available in ground arith

module _ (pair : DrivePair) (w : World) (found : find (pair_is pair.id) w.pairs ≡ some pair) where
  abbrev set_over : DrivePair → DrivePair
  set_over =
      set_runtime none none (on_primary pair.active_role DriveState.failed)
        (on_secondary pair.active_role DriveState.failed) (some (standby_role pair))

  abbrev relinked : World
  relinked =
      (refresh_pair_virtual_paths (failed_over pair)
        (detach pair.id failover_required (with_pair pair.id set_over w))).1

  relinked-pairs : relinked.pairs ≡ (with_pair pair.id set_over w).pairs
  unfolding detach mark_drive_pair_unmirrored fail_pending_sync_queue_for_drive_pair
  relinked-pairs = (refresh_pair-SameTables _ _).0

  relinked_found : find (pair_is pair.id) relinked.pairs ≡ some (failed_over pair)
  relinked_found = rw relinked-pairs (find-with_pair pair.id w pair set_over (λ p. refl) found)

  fail_over_lem :
      fail_over pair w ≡ (ok (failed_over pair), (log_event drive_failover none relinked).1)
  unfolding fail_over detach mark_drive_pair_unmirrored fail_pending_sync_queue_for_drive_pair
      log_event
  fail_over_lem =
      rw
        (update_drive_pair_runtime_lem pair.id none none
          (on_primary pair.active_role DriveState.failed)
          (on_secondary pair.active_role DriveState.failed) (some (standby_role pair)) w pair found)
        (get_drive_pair_found pair.id (log_event drive_failover none relinked).1 (failed_over pair)
          relinked_found)

  -- A stored pair whose active drive is active but gone (its root is unavailable, or lacks the
  -- marker that it should have), and whose other drive is active and reachable, is failed over: the
  -- returned row is the stored one, the lost drive is failed in it and the other drive is the active
  -- one, no file of the pair is mirrored and no work of the pair is open. Any other pair is returned
  -- as it was, with nothing changed.
  pub maybe_emergency_failover_lem :
      (IsLost pair w × IsFailedOver pair w (maybe_emergency_failover pair w))
      ⊎ ((¬ IsLost pair w) × (maybe_emergency_failover pair w ≡ (ok pair, w)))
  unfolding maybe_emergency_failover
  maybe_emergency_failover_lem = elim (Bool-cases (must_fail_over w pair)) [
    | inr spared ↦ inr (
      (λ h. contradictory (must_fail_over w pair) (IsLost-must_fail_over pair w h) spared),
      rw spared refl,
    )
    | inl lost ↦
        let (t0, t1, t2) = target pair w (must_fail_over-IsLost pair w lost) in
        inl (
          must_fail_over-IsLost pair w lost,
          rw (lost, fail_over_lem)
              (record {
                returned = refl;
                stored = unfold log_event in relinked_found;
                detached = unfold log_event in detached_after;
                target_active = t0;
                target_available = t1;
                source_failed = t2;
              }),
        )
  ]
    where
      detached_after : IsDetached pair.id relinked
      detached_after =
          SameTables-IsDetached pair.id
            (detach pair.id failover_required (with_pair pair.id set_over w)) relinked
            (refresh_pair-SameTables (failed_over pair)
              (detach pair.id failover_required (with_pair pair.id set_over w)))
            (detach-IsDetached pair.id failover_required (with_pair pair.id set_over w))
