-- ===== src/Integrity/Recovery.antt =====
-- The classification of a check, and what a recovery achieves.
use bitprotector.Base.{
  ◌≡◌, ◌≢◌, refl, Bool, true, false, inl, inr, Bool-cases, Result, ok, err, continue,
}
use bitprotector.Fs.{FilePath, Fs, content, join}
use bitprotector.Checksum.{checksum_bytes}
use bitprotector.Checksum.Hasher.{Blake3}
use bitprotector.Db.Rows.{DrivePair, TrackedFile}
use bitprotector.Drive.Pair.{is_degraded}
use bitprotector.Mirror.Copies.{
  RestorePost, restore_from_mirror-BothHash, restore_mirror_from_master-BothHash,
}
use bitprotector.Integrity.Defs.{
  IntegrityStatus, intact, master_corrupted, mirror_corrupted, both_corrupted, mirror_missing,
  master_missing, primary_drive_unavailable, secondary_drive_unavailable, IntegrityCheckResult,
  recover_by_status, attempt_recovery,
}

module _ (b3 : Blake3) (pair : DrivePair) (file : TrackedFile) where
  abbrev master_path : FilePath
  master_path = join pair.primary_path file.relative_path

  abbrev mirror_path : FilePath
  mirror_path = join pair.secondary_path file.relative_path

  -- Both copies have the stored checksum.
  abbrev pub BothIntact : Fs → Type 0
  BothIntact fs =
      (checksum_bytes b3 (content fs master_path) ≡ file.checksum)
      × (checksum_bytes b3 (content fs mirror_path) ≡ file.checksum)

  abbrev pub RecoveryPost : Fs → Result Bool × Fs → Type 0
  RecoveryPost fs (ok true, fs') = BothIntact fs'
  RecoveryPost fs (ok false, fs') = fs' ≡ fs
  RecoveryPost fs (err e, fs') = Unit

  from_master :
      (fs : Fs) (r : Result (Unit {0}) × Fs)
      → RestorePost b3 master_path mirror_path file.checksum r
      → RecoveryPost fs (continue r.0 (λ _ s. (ok true, s)) r.1)
  from_master fs (ok u, fs') h = (h.first, h.second)
  from_master fs (err e, fs') h = tt

  from_mirror :
      (fs : Fs) (r : Result (Unit {0}) × Fs)
      → RestorePost b3 mirror_path master_path file.checksum r
      → RecoveryPost fs (continue r.0 (λ _ s. (ok true, s)) r.1)
  from_mirror fs (ok u, fs') h = (h.second, h.first)
  from_mirror fs (err e, fs') h = tt

  by_status :
      (status : IntegrityStatus) (fs : Fs)
      → master_path ≢ mirror_path
      → RecoveryPost fs (recover_by_status b3 pair file status fs)
  unfolding recover_by_status
  by_status master_corrupted fs ne =
      from_mirror fs _ (restore_from_mirror-BothHash b3 pair file.relative_path file.checksum fs ne)
  by_status mirror_corrupted fs ne =
      from_master fs _
        (restore_mirror_from_master-BothHash b3 pair file.relative_path file.checksum fs ne)
  by_status mirror_missing fs ne =
      from_master fs _
        (restore_mirror_from_master-BothHash b3 pair file.relative_path file.checksum fs ne)
  by_status intact fs ne = refl
  by_status both_corrupted fs ne = refl
  by_status master_missing fs ne = refl
  by_status primary_drive_unavailable fs ne = refl
  by_status secondary_drive_unavailable fs ne = refl

  -- If the two paths of the file differ: a recovery that reports true has left both copies with the
  -- stored checksum, whatever the result said that it acts on; one that reports false has changed
  -- no file.
  pub attempt_recovery_lem :
      (result : IntegrityCheckResult) (fs : Fs)
      → master_path ≢ mirror_path
      → RecoveryPost fs (attempt_recovery b3 pair file result fs)
  unfolding attempt_recovery
  attempt_recovery_lem result fs ne = elim (Bool-cases (is_degraded pair)) [
    | inl degraded ↦ rw degraded refl
    | inr mirrored ↦ rw mirrored (by_status result.status fs ne)
  ]
