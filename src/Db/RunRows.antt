-- ===== src/Db/RunRows.antt =====
-- The rows of integrity_runs and integrity_run_results.
use bitprotector.Base.{ℕ, Bool, Option, Text}
use bitprotector.Fs.{FilePath}
use bitprotector.Db.Rows.{Message}

-- integrity_runs.status
pub data RunStatus : Type 0 where
  running stopping stopped completed failed : RunStatus

pub record IntegrityRun : Type 0 where
  pub id : ℕ
  pub scope_drive_pair_id : Option ℕ
  pub recover : Bool
  pub trigger : Text
  pub status : RunStatus
  pub total_files : ℕ
  pub processed_files : ℕ
  pub attention_files : ℕ
  pub recovered_files : ℕ
  pub active_workers : ℕ
  pub stop_requested : Bool
  pub started_at : ℕ
  pub ended_at : Option ℕ
  pub error_message : Option Message

pub record IntegrityRunResult : Type 0 where
  pub id : ℕ
  pub run_id : ℕ
  pub file_id : ℕ
  pub drive_pair_id : ℕ
  pub relative_path : FilePath
  pub status : Text
  pub recovered : Bool
  pub needs_attention : Bool
  pub checked_at : ℕ
