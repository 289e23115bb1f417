-- ===== src/Tests/Copying.antt =====
-- The hashing, copying, restoring and recovering theorems at the small file system.
use bitprotector.Base.{◌≡◌, ◌≢◌, refl, true, false, [], ◌∷◌, text, text_eq, ok, some}
use bitprotector.Fs.{join}
use bitprotector.Checksum.{
  streaming, hash_content, checksum_bytes, copy_with_checksum, copy_and_verify_checksum,
}
use bitprotector.Checksum.Loop.{hash_content-eq-hash}
use bitprotector.Checksum.Copy.{
  CopyPost, copy_with_checksum_lem, VerifyPost, copy_and_verify_checksum_lem, IsCopyable, copied,
  copy_and_verify_checksum_total,
}
use bitprotector.Db.Rows.{active}
use bitprotector.Mirror.{restore_from_mirror, restore_mirror_from_master}
use bitprotector.Mirror.Copies.{
  RestorePost, restore_from_mirror-BothHash, restore_mirror_from_master-BothHash,
}
use bitprotector.Integrity.{IntegrityCheckResult, mirror_corrupted, attempt_recovery}
use bitprotector.Integrity.Recovery.{RecoveryPost, attempt_recovery_lem}
use bitprotector.Tests.Data.{toy, texts_differ, on_master, on_mirror, small_fs, pair_with, tracked}

hash_content-eq-hash_example :
    hash_content toy streaming (1 ∷ 2 ∷ []) ≡ checksum_bytes toy (1 ∷ 2 ∷ [])
hash_content-eq-hash_example = hash_content-eq-hash toy streaming (1 ∷ 2 ∷ [])

apart : on_master ≢ on_mirror
unfolding text_eq
apart = texts_differ on_master on_mirror refl

copyable : IsCopyable on_master on_mirror small_fs
unfolding text_eq
copyable = record {
  source_there = refl;
  source_readable = refl;
  source_sound = refl;
  target_writable = refl;
  target_no_dir = refl;
  target_room = λ n. refl;
}

copy_with_checksum_lem_example :
    CopyPost toy on_master on_mirror small_fs (copy_with_checksum toy on_master on_mirror small_fs)
copy_with_checksum_lem_example = copy_with_checksum_lem toy on_master on_mirror small_fs apart

copy_and_verify_checksum_lem_example :
    VerifyPost toy on_master on_mirror
      (1 ∷ 2 ∷ [])
      small_fs
      (copy_and_verify_checksum toy on_master on_mirror (1 ∷ 2 ∷ []) small_fs)
copy_and_verify_checksum_lem_example =
    copy_and_verify_checksum_lem toy on_master on_mirror (1 ∷ 2 ∷ []) small_fs apart

copy_and_verify_checksum_total_example :
    copy_and_verify_checksum toy on_master on_mirror (1 ∷ 2 ∷ []) small_fs
    ≡ (ok tt, copied on_master on_mirror small_fs)
unfolding checksum_bytes text_eq
copy_and_verify_checksum_total_example =
    copy_and_verify_checksum_total toy on_master on_mirror (1 ∷ 2 ∷ []) small_fs apart copyable

restore_from_mirror-BothHash_example :
    RestorePost toy
      (join (pair_with active).secondary_path (text "a"))
      (join (pair_with active).primary_path (text "a"))
      (9 ∷ [])
      (restore_from_mirror toy (pair_with active) (text "a") (9 ∷ []) small_fs)
restore_from_mirror-BothHash_example =
    restore_from_mirror-BothHash toy (pair_with active) (text "a") (9 ∷ []) small_fs apart

restore_mirror_from_master-BothHash_example :
    RestorePost toy
      (join (pair_with active).primary_path (text "a"))
      (join (pair_with active).secondary_path (text "a"))
      (1 ∷ 2 ∷ [])
      (restore_mirror_from_master toy (pair_with active) (text "a") (1 ∷ 2 ∷ []) small_fs)
restore_mirror_from_master-BothHash_example =
    restore_mirror_from_master-BothHash toy (pair_with active) (text "a") (1 ∷ 2 ∷ []) small_fs
      apart

abbrev broken_mirror : IntegrityCheckResult
broken_mirror = record {
  file_id = 5;
  stored_checksum = 1 ∷ 2 ∷ [];
  master_checksum = some (1 ∷ 2 ∷ []);
  mirror_checksum = some (9 ∷ []);
  master_valid = true;
  mirror_valid = false;
  status = mirror_corrupted;
}

attempt_recovery_lem_example :
    RecoveryPost toy
      (pair_with active)
      tracked
      small_fs
      (attempt_recovery toy (pair_with active) tracked broken_mirror small_fs)
attempt_recovery_lem_example =
    attempt_recovery_lem toy (pair_with active) tracked broken_mirror small_fs apart
