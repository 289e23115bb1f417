-- ===== src/Db/Settings.antt =====
-- db/repository.rs: the pause flag and the processing lock of sync_settings.
pub mod Lock
use bitprotector.Base.{
  ℕ, ◌+◌, Bool, true, false, not, ◌||◌, Option, none, some, leb, if◌then◌else◌, ok, Exec, gets,
  modify,
}
use bitprotector.Db.Rows.{SyncSettings}
use bitprotector.Db.World.{World}

abbrev pub set_settings : SyncSettings → World → World
set_settings s w = record w { settings = s }

unfoldable pub get_sync_queue_paused : Exec World Bool
get_sync_queue_paused = gets (λ w. w.settings.queue_paused)

unfoldable pub set_sync_queue_paused : Bool → Exec World (Unit {0})
set_sync_queue_paused paused =
    modify (λ w. set_settings (record w.settings { queue_paused = paused }) w)

-- processing_locked_at IS NULL OR processing_locked_at <= datetime('now', '-N seconds')
abbrev pub lock_is_stale : Option ℕ → ℕ → ℕ → Bool
lock_is_stale none stale_after now = true
lock_is_stale (some at) stale_after now = leb (at + stale_after) now

-- process_is_alive, asked of the holder that is recorded.
abbrev pub holder_is_dead : (ℕ → Bool) → Option ℕ → Bool
holder_is_dead alive none = false
holder_is_dead alive (some pid) = not (alive pid)

-- The update of one row, and whether it changed the row. The holder does not change between the
-- read and the update of the same call.
unfoldable pub try_acquire_sync_processing_lock : ℕ → (ℕ → Bool) → ℕ → Exec World Bool
try_acquire_sync_processing_lock pid alive stale_after w =
    if lock_is_stale w.settings.processing_locked_at stale_after w.now
      || holder_is_dead alive w.settings.processing_locked_by_pid
    then (
      ok true,
      set_settings
          (record w.settings {
            processing_locked_at = some w.now;
            processing_locked_by_pid = some pid;
          })
          w,
    )
    else (ok false, w)

unfoldable pub heartbeat_sync_processing_lock : Exec World (Unit {0})
heartbeat_sync_processing_lock =
    modify (λ w. set_settings (record w.settings { processing_locked_at = some w.now }) w)

unfoldable pub release_sync_processing_lock : Exec World (Unit {0})
release_sync_processing_lock = modify (λ w.
    set_settings
      (record w.settings { processing_locked_at = none; processing_locked_by_pid = none }) w)
