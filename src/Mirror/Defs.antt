-- ===== src/Mirror/Defs.antt =====
-- core/mirror.rs: the copy to the standby drive and the two restores.
use bitprotector.Base.{
  not, Text, text_eq, Exec, pure, raise_if, gets, ◌>>=◌, ◌>>◌, standby_not_ready, source_missing,
  mirror_verification_failed, drive_failed,
}
use bitprotector.Fs.{FilePath, Fs, exists, join, create_parent}
use bitprotector.Checksum.{copy_with_checksum, copy_and_verify_checksum}
use bitprotector.Checksum.Hasher.{Blake3}
use bitprotector.Db.Rows.{DrivePair, DriveState, state_eq}
use bitprotector.Drive.Pair.{
  active_path, standby_path, standby_accepts_sync, ensure_drive_root_marker,
}

module _ (b3 : Blake3) where
  unfoldable pub mirror_file : DrivePair → FilePath → Exec Fs Text
  mirror_file pair relative = do
    ready ← gets (λ fs. standby_accepts_sync fs pair)
    raise_if (not ready) standby_not_ready
    ensure_drive_root_marker (active_path pair)
    ensure_drive_root_marker (standby_path pair)
    present ← gets (λ fs. exists fs (join (active_path pair) relative))
    raise_if (not present) source_missing
    create_parent (join (standby_path pair) relative)
    sums ←
        copy_with_checksum b3 (join (active_path pair) relative) (join (standby_path pair) relative)
    raise_if (not (text_eq sums.0 sums.1)) mirror_verification_failed
    pure sums.0

  unfoldable pub restore_from_mirror : DrivePair → FilePath → Text → Exec Fs (Unit {0})
  restore_from_mirror pair relative expected = do
    raise_if (state_eq pair.primary_state DriveState.failed) drive_failed
    present ← gets (λ fs. exists fs (join pair.secondary_path relative))
    raise_if (not present) source_missing
    create_parent (join pair.primary_path relative)
    ensure_drive_root_marker pair.primary_path
    copy_and_verify_checksum b3 (join pair.secondary_path relative)
        (join pair.primary_path relative) expected

  unfoldable pub restore_mirror_from_master : DrivePair → FilePath → Text → Exec Fs (Unit {0})
  restore_mirror_from_master pair relative expected = do
    raise_if (state_eq pair.secondary_state DriveState.failed) drive_failed
    present ← gets (λ fs. exists fs (join pair.primary_path relative))
    raise_if (not present) source_missing
    create_parent (join pair.secondary_path relative)
    ensure_drive_root_marker pair.secondary_path
    copy_and_verify_checksum b3 (join pair.primary_path relative)
        (join pair.secondary_path relative) expected
