-- ===== src/Db/Settings/Lock.antt =====
-- The processing lock: who gets it, and for how long.
use bitprotector.Base.{
  ℕ, ◌+◌, ◌<◌, ◌≡◌, refl, Bool, true, false, ◌||◌, some, inl, inr, Bool-cases, arith, leb, Result,
  ok, err,
}
use bitprotector.Db.World.{World}
use bitprotector.Db.Settings.{
  try_acquire_sync_processing_lock, release_sync_processing_lock, lock_is_stale, holder_is_dead,
}

-- Time passes.
abbrev pub later : ℕ → World → World
later seconds w = record w { now = w.now + seconds }

-- The lock is held by the process, which took or refreshed it at the present time.
abbrev pub IsHeld : ℕ → World → Type 0
IsHeld pid w =
    (w.settings.processing_locked_at ≡ some w.now)
    × (w.settings.processing_locked_by_pid ≡ some pid)

-- A call that returns true leaves the lock held by the caller; one that returns false changes
-- nothing; there is no other end.
abbrev pub AcquirePost : ℕ → World → Result Bool × World → Type 0
AcquirePost pid w (ok true, w') = IsHeld pid w'
AcquirePost pid w (ok false, w') = w' ≡ w
AcquirePost pid w (err e, w') = ⊥

module _ (alive : ℕ → Bool) (stale_after : ℕ) where
  -- An acquisition that returns true leaves the lock held by the caller from now on, one that
  -- returns false has changed nothing, and it never fails.
  pub try_acquire_sync_processing_lock_lem :
      (pid : ℕ) (w : World)
      → AcquirePost pid w (try_acquire_sync_processing_lock pid alive stale_after w)
  unfolding try_acquire_sync_processing_lock
  try_acquire_sync_processing_lock_lem pid w =
      elim (Bool-cases (
        lock_is_stale w.settings.processing_locked_at stale_after w.now
        || holder_is_dead alive w.settings.processing_locked_by_pid)) [
          | inl free ↦ rw free (refl, refl)
          | inr taken ↦ rw taken refl
        ]

  -- While the holder of the lock is alive and has taken or refreshed it less than `stale_after`
  -- seconds ago, every other acquisition is refused and changes nothing.
  pub try_acquire_sync_processing_lock_exclusive :
      (holder other seconds : ℕ) (w : World)
      → IsHeld holder w
      → alive holder ≡ true
      → seconds < stale_after
      → try_acquire_sync_processing_lock other alive stale_after (later seconds w)
        ≡ (ok false, later seconds w)
  unfolding try_acquire_sync_processing_lock
  try_acquire_sync_processing_lock_exclusive holder other seconds w (at, by) living short =
      rw (at, by, living, fresh (w.now) seconds stale_after short) refl
    where
      fresh : (n s t : ℕ) → s < t → leb (n + t) (n + s) ≡ false
      fresh n s t h = ground arith

  -- Once the holder has been silent for `stale_after` seconds another process takes the lock, and
  -- a release by the first one then frees it for a third, although the second still holds it.
  pub release_sync_processing_lock_steals :
      (first second third seconds : ℕ) (w : World)
      → IsHeld first w
      → stale_after < seconds + 1
      → let taken =
          (try_acquire_sync_processing_lock second alive stale_after (later seconds w)).1 in
        IsHeld second taken
        × ((try_acquire_sync_processing_lock third alive stale_after
              (release_sync_processing_lock taken).1).0
            ≡ ok true)
  unfolding try_acquire_sync_processing_lock release_sync_processing_lock
  release_sync_processing_lock_steals first second third seconds w (at, by) long =
      rw (at, stale w.now seconds stale_after long) ((refl, refl), refl)
    where
      stale : (n s t : ℕ) → t < s + 1 → leb (n + t) (n + s) ≡ true
      stale n s t h = ground arith
