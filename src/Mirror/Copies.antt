-- ===== src/Mirror/Copies.antt =====
-- What a successful copy between the drives guarantees.
use bitprotector.Base.{
  ◌≡◌, ◌≢◌, refl, sym, Bool, true, false, not, Text, text_eq_refl, text_eq_ne, Result, ok, err,
  Exec, raise_if, gets, ◌>>=◌, ◌>>◌, continue, source_missing, Error,
}
use bitprotector.Fs.{FilePath, Fs, content, exists, is_file, join, create_parent}
use bitprotector.Checksum.{checksum_bytes, copy_and_verify_checksum}
use bitprotector.Checksum.Hasher.{Blake3}
use bitprotector.Checksum.Copy.{VerifyPost, copy_and_verify_checksum_lem, copied}
use bitprotector.Db.Rows.{DrivePair, DriveState, state_eq}
use bitprotector.Drive.Pair.{ensure_drive_root_marker}
use bitprotector.Mirror.Defs.{restore_from_mirror, restore_mirror_from_master}

-- Both paths hold a file whose BLAKE3 hash is the given one.
pub record BothHash (b3 : Blake3) (a b : FilePath) (sum : Text) (fs : Fs) : Type 0 where
  pub first : checksum_bytes b3 (content fs a) ≡ sum
  pub second : checksum_bytes b3 (content fs b) ≡ sum
  pub second_file : is_file fs b ≡ true

copied-BothHash :
    (b3 : Blake3) (src dst : FilePath) (sum : Text) (fs : Fs)
    → src ≢ dst
    → checksum_bytes b3 (content fs src) ≡ sum
    → BothHash b3 src dst sum (copied src dst fs)
copied-BothHash b3 src dst sum fs ne h = record {
  first = rw (text_eq_ne dst src (λ e. ne (sym e))) h;
  second = rw (text_eq_refl dst) h;
  second_file = rw (text_eq_refl dst) refl;
}

-- What a restore has done where it reports success.
abbrev pub RestorePost : Blake3 → FilePath → FilePath → Text → Result (Unit {0}) × Fs → Type 0
RestorePost b3 src dst expected (ok u, fs') = BothHash b3 src dst expected fs'
RestorePost b3 src dst expected (err e, fs') = Unit

verified :
    (b3 : Blake3) (src dst : FilePath) (expected : Text) (fs : Fs) (r : Result (Unit {0}) × Fs)
    → src ≢ dst
    → VerifyPost b3 src dst expected fs r
    → RestorePost b3 src dst expected r
verified b3 src dst expected fs (ok u, fs') ne (h, e) =
    rw e (copied-BothHash b3 src dst expected fs ne h)
verified b3 src dst expected fs (err e, fs') ne h = tt

-- A step before the copy.
before_copy :
    (b3 : Blake3) (src dst : FilePath) (expected : Text) {A : Type 0} (f : A → Exec Fs (Unit {0}))
    (r : Result A × Fs)
    → ((a : A) (fs : Fs) → RestorePost b3 src dst expected (f a fs))
    → RestorePost b3 src dst expected (continue r.0 f r.1)
before_copy b3 src dst expected f (ok a, fs) h = h a fs
before_copy b3 src dst expected f (err e, fs) h = tt

guarded :
    (b3 : Blake3) (src dst : FilePath) (expected : Text) (b : Bool) (e : Error)
    (f : Unit {0} → Exec Fs (Unit {0})) (fs : Fs)
    → ((u : Unit {0}) (s : Fs) → RestorePost b3 src dst expected (f u s))
    → RestorePost b3 src dst expected ((raise_if b e >>= f) fs)
guarded b3 src dst expected true e f fs h = tt
guarded b3 src dst expected false e f fs h = h tt fs

restore_steps :
    (b3 : Blake3) (src dst root : FilePath) (expected : Text) (failed : Bool) (e : Error) (fs : Fs)
    → src ≢ dst
    → RestorePost b3 src dst expected (
        (raise_if failed e
            >> (gets (λ s. exists s src) >>= λ present.
                raise_if (not present) source_missing
                >> (create_parent dst
                    >> (ensure_drive_root_marker root
                        >> copy_and_verify_checksum b3 src dst expected))))
          fs)
restore_steps b3 src dst root expected failed e fs ne =
    guarded b3 src dst expected failed e _ fs (λ _ s.
      guarded b3 src dst expected (not (exists s src)) source_missing _ s (λ _ s1.
        before_copy b3 src dst expected _ (create_parent dst s1) (λ _ s2.
          before_copy b3 src dst expected _ (ensure_drive_root_marker root s2) (λ _ s3.
            verified b3 src dst expected s3 (copy_and_verify_checksum b3 src dst expected s3) ne
              (copy_and_verify_checksum_lem b3 src dst expected s3 ne)))))

module _ (b3 : Blake3) (pair : DrivePair) (relative : FilePath) (expected : Text) (fs : Fs)
    (apart : join pair.primary_path relative ≢ join pair.secondary_path relative) where
  -- If the two paths of the file differ: a restore from the mirror that reports success has left
  -- a file at the master path, and the content at both paths has the expected BLAKE3 hash.
  pub restore_from_mirror-BothHash :
      RestorePost b3
        (join pair.secondary_path relative)
        (join pair.primary_path relative)
        expected
        (restore_from_mirror b3 pair relative expected fs)
  unfolding restore_from_mirror
  restore_from_mirror-BothHash =
      restore_steps b3 (join pair.secondary_path relative) (join pair.primary_path relative)
        pair.primary_path expected (state_eq pair.primary_state DriveState.failed) _ fs
        (λ e. apart (sym e))

  -- If the two paths of the file differ: a restore of the mirror that reports success has left
  -- a file at the mirror path, and the content at both paths has the expected BLAKE3 hash.
  pub restore_mirror_from_master-BothHash :
      RestorePost b3
        (join pair.primary_path relative)
        (join pair.secondary_path relative)
        expected
        (restore_mirror_from_master b3 pair relative expected fs)
  unfolding restore_mirror_from_master
  restore_mirror_from_master-BothHash =
      restore_steps b3 (join pair.primary_path relative) (join pair.secondary_path relative)
        pair.secondary_path expected (state_eq pair.secondary_state DriveState.failed) _ fs apart
