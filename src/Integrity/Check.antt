-- ===== src/Integrity/Check.antt =====
-- What a check reads, and the status that it gives.
use bitprotector.Fs.{read_fails, read_to_end, FilePath, Fs, content, exists, join, open_file}
use bitprotector.Base.{
  read_failed, arith, ◌≡◌, refl, ap, Bool, true, false, not, ◌&&◌, ◌⊎◌, inl, inr, Bool-cases, none,
  some, is_some, option_eq, Text, text_eq, if◌then◌else◌, Result, ok, err, Error, open_failed,
}
use bitprotector.Checksum.{ChecksumStrategy, checksum_bytes, checksum_file}
use bitprotector.Checksum.Loop.{hash_content-eq-hash}
use bitprotector.Checksum.Hasher.{Blake3}
use bitprotector.Db.Rows.{DrivePair, DriveRole, primary, secondary, active, state_eq, TrackedFile}
use bitprotector.Drive.Pair.{path_is_available, is_degraded}
use bitprotector.Integrity.Defs.{
  IntegrityCheckResult, is_intact, degraded_status, mirrored_status, checksum_if_present,
  check_file_integrity,
}

-- The one of two tests that a role picks.
abbrev pub on_role : DriveRole → Bool → Bool → Bool
on_role primary x y = x
on_role secondary x y = y

-- The status, from what was found of the two copies: present or not, and with the stored hash or
-- not.
verdict :
    (degraded : Bool) (role : DriveRole) (a b : Bool) (h k c : Text)
    → is_intact (
        if degraded
        then degraded_status role
            (option_eq (if a then some h else none) (some c))
            (option_eq (if b then some k else none) (some c))
        else mirrored_status
            (is_some (if a then some h else none))
            (is_some (if b then some k else none))
            (option_eq (if a then some h else none) (some c))
            (option_eq (if b then some k else none) (some c)))
      ≡ (if degraded
          then on_role role (a && text_eq h c) (b && text_eq k c)
          else (a && text_eq h c) && (b && text_eq k c))
unfolding degraded_status mirrored_status
verdict true primary a b h k c = ground arith
verdict true secondary a b h k c = ground arith
verdict false role a b h k c = ground arith

module _ (b3 : Blake3) (pair : DrivePair) (file : TrackedFile) where
  -- What the check reads at a path: nothing, or the hash of the content.
  checksum_if_present_lem :
      (available : Bool) (path : FilePath) (strategy : ChecksumStrategy) (fs : Fs)
      → ((checksum_if_present b3 available path strategy fs) ≡ (
        ok (
            if available && exists fs path
            then some (checksum_bytes b3 (content fs path))
            else none),
        fs,
      ))
        ⊎ ((e : Error) × (checksum_if_present b3 available path strategy fs ≡ (err e, fs)))
  unfolding checksum_if_present checksum_file open_file read_to_end
  checksum_if_present_lem available path strategy fs =
      elim (Bool-cases (available && exists fs path)) [
        | inr missing ↦ inl (rw missing refl)
        | inl present ↦ elim (Bool-cases (exists fs path && fs.can_read path)) [
          | inr refused ↦ inr (open_failed, rw (present, refused) refl)
          | inl opened ↦ elim (Bool-cases (read_fails fs path)) [
            | inr whole ↦ inl (
                rw (present, opened, whole)
                  (ap (λ (t : Text). (ok (some t), fs))
                    (hash_content-eq-hash b3 strategy (content fs path))))
            | inl broken ↦ inr (read_failed, rw (present, opened, broken) refl)
          ]
        ]
      ]

  -- The copy below a root is there and has the stored checksum.
  abbrev pub is_sound : FilePath → Fs → Bool
  is_sound root fs =
      (path_is_available fs root && exists fs (join root file.relative_path))
      && text_eq (checksum_bytes b3 (content fs (join root file.relative_path))) file.checksum

  -- No drive counts as active although its root is not available.
  abbrev pub is_reachable : Fs → Bool
  is_reachable fs =
      not (state_eq pair.primary_state active && not (path_is_available fs pair.primary_path))
      && not
          (state_eq pair.secondary_state active && not (path_is_available fs pair.secondary_path))

  abbrev pub CheckPost : Fs → Result IntegrityCheckResult × Fs → Type 0
  CheckPost fs (ok r, fs') =
      (is_intact r.status ≡ (
        is_reachable fs
        && (if is_degraded pair
            then on_role pair.active_role (is_sound pair.primary_path fs)
                (is_sound pair.secondary_path fs)
            else is_sound pair.primary_path fs && is_sound pair.secondary_path fs)))
      × (fs' ≡ fs)
  CheckPost fs (err e, fs') = fs' ≡ fs

  -- A check changes no file. One that returns a result reports the file intact if and only if no
  -- active drive's root is unavailable and the copies that count, both of them or on a degraded
  -- pair the one on the active drive, are there and have the stored checksum. The strategies do not
  -- matter.
  pub check_file_integrity_lem :
      (master_strategy mirror_strategy : ChecksumStrategy) (fs : Fs)
      → CheckPost fs (check_file_integrity b3 pair file master_strategy mirror_strategy fs)
  unfolding check_file_integrity
  check_file_integrity_lem s t fs =
      elim (Bool-cases
        (state_eq pair.primary_state active && not (path_is_available fs pair.primary_path))) [
          | inl cut ↦ rw cut (rw cut refl, refl)
          | inr near ↦
              elim (Bool-cases (
                state_eq pair.secondary_state active
                && not (path_is_available fs pair.secondary_path))) [
                  | inl cut ↦ rw (near, cut) (rw (near, cut) refl, refl)
                  | inr both ↦
                      rw (near, both)
                        (elim (checksum_if_present_lem (path_is_available fs pair.primary_path)
                          (join pair.primary_path file.relative_path) s fs) [
                            | inr (e, stopped) ↦ rw stopped refl
                            | inl first ↦
                                rw first
                                  (elim (checksum_if_present_lem
                                    (path_is_available fs pair.secondary_path)
                                    (join pair.secondary_path file.relative_path) t fs) [
                                      | inr (e, stopped) ↦ rw stopped refl
                                      | inl second ↦ rw second (
                                        rw (near, both)
                                            (verdict (is_degraded pair) pair.active_role _ _ _ _
                                              file.checksum),
                                        refl,
                                      )
                                    ])
                          ])
                ]
        ]
