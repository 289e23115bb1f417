-- ===== src/Db/Rows.antt =====
-- The rows of the tables. A column that the schema restricts to a few words (its CHECK
-- constraints) is held as the value that the code reads the word as; `as_str` and `from_str` are
-- in Drive/Names. The columns created_at and updated_at, which nothing reads, are left out.
use bitprotector.Base.{ℕ, Bool, true, false, Option, Text, Error}
use bitprotector.Fs.{FilePath}
use bitprotector.Checksum.{DriveMediaType}

-- drive::DriveRole
pub data DriveRole : Type 0 where
  primary secondary : DriveRole

-- drive::DriveState
pub data DriveState : Type 0 where
  active quiescing failed rebuilding : DriveState

pub record DrivePair : Type 0 where
  pub id : ℕ
  pub name : Text
  pub primary_path : FilePath
  pub secondary_path : FilePath
  pub primary_state : DriveState
  pub secondary_state : DriveState
  pub active_role : DriveRole
  pub primary_media_type : DriveMediaType
  pub secondary_media_type : DriveMediaType

pub record TrackedFile : Type 0 where
  pub id : ℕ
  pub drive_pair_id : ℕ
  pub relative_path : FilePath
  pub checksum : Text
  pub file_size : ℕ
  pub virtual_path : Option Text
  pub is_mirrored : Bool
  pub tracked_direct : Bool
  pub tracked_via_folder : Bool
  pub last_integrity_check_at : Option ℕ

pub record TrackedFolder : Type 0 where
  pub id : ℕ
  pub drive_pair_id : ℕ
  pub folder_path : FilePath
  pub virtual_path : Option Text
  pub include_checksum_sidecars : Bool
  pub scanning : Bool
  pub scan_scanned_files : ℕ
  pub scan_total_files : ℕ
  pub mirroring : Bool
  pub deleting : Bool
  pub mirror_mirrored_files : ℕ
  pub mirror_total_files : ℕ
  pub last_scanned_at : Option ℕ
  pub last_mirrored_at : Option ℕ

-- sync_queue.action
pub data Action : Type 0 where
  mirror restore_master restore_mirror verify user_action_required adopt_mirror : Action

-- sync_queue.status
pub data QueueStatus : Type 0 where
  pending in_progress completed failed : QueueStatus

-- sync_queue.error_message
pub data Message : Type 0 where
  failed_with : Error → Message
  failover_required replacement_confirmed interrupted : Message
  given : Text → Message

pub record SyncQueueItem : Type 0 where
  pub id : ℕ
  pub tracked_file_id : ℕ
  pub action : Action
  pub status : QueueStatus
  pub error_message : Option Message
  pub reason : Option Text
  pub completed_at : Option ℕ

-- The one row of sync_settings.
pub record SyncSettings : Type 0 where
  pub queue_paused : Bool
  pub processing_locked_at : Option ℕ
  pub processing_locked_by_pid : Option ℕ

-- event_log.event_type, for the events that the modelled code logs.
pub data EventType : Type 0 where
  drive_quiescing drive_quiesce_cancelled drive_failure_confirmed drive_failover : EventType
  drive_replacement_assigned drive_rebuild_completed : EventType
  sync_completed sync_failed file_mirrored : EventType
  recovery_success recovery_fail : EventType
  integrity_fail both_corrupted change_detected : EventType
  integrity_run_started integrity_run_completed : EventType
  file_created file_untracked folder_tracked folder_untracked : EventType

-- An event without its message and details.
pub record EventLogEntry : Type 0 where
  pub event_type : EventType
  pub tracked_file_id : Option ℕ

abbrev pub role_eq : DriveRole → DriveRole → Bool
role_eq primary primary = true
role_eq primary secondary = false
role_eq secondary primary = false
role_eq secondary secondary = true

abbrev pub state_eq : DriveState → DriveState → Bool
state_eq active active = true
state_eq quiescing quiescing = true
state_eq DriveState.failed DriveState.failed = true
state_eq rebuilding rebuilding = true
state_eq _ _ = false

abbrev pub action_eq : Action → Action → Bool
action_eq mirror mirror = true
action_eq restore_master restore_master = true
action_eq restore_mirror restore_mirror = true
action_eq verify verify = true
action_eq user_action_required user_action_required = true
action_eq adopt_mirror adopt_mirror = true
action_eq _ _ = false

-- status IN ('pending', 'in_progress')
abbrev pub is_open : QueueStatus → Bool
is_open pending = true
is_open in_progress = true
is_open completed = false
is_open QueueStatus.failed = false

abbrev pub is_pending : QueueStatus → Bool
is_pending pending = true
is_pending in_progress = false
is_pending completed = false
is_pending QueueStatus.failed = false

abbrev pub is_in_progress : QueueStatus → Bool
is_in_progress pending = false
is_in_progress in_progress = true
is_in_progress completed = false
is_in_progress QueueStatus.failed = false
