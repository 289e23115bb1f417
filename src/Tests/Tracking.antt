-- ===== src/Tests/Tracking.antt =====
-- The theorems on tracking, folders' files and sidecars at the small world.
use bitprotector.Sidecar.RoundTrip.{IsLowerHex, is_lower_hex, read_b3_sidecar-sidecar_line}
use bitprotector.Base.{
  Bool, ◌&&◌, All, Text, [], arith, false, if◌then◌else◌, none, ok, refl, some, text, text_eq, true,
  ◌++◌, ◌∷◌, ◌≡◌,
}
use bitprotector.Tracker.Creation.{DiskPost, create_tracked_file_from_disk_lem}
use bitprotector.Tracker.{create_tracked_file_from_disk}
use bitprotector.SyncQueue.Resolve.{sidecar_line}
use bitprotector.Sidecar.{read_b3_sidecar, sidecar_path_for}
use bitprotector.Fs.{Fs, after_slash, file_name, file}
use bitprotector.Db.World.{World}
use bitprotector.Db.Rows.{TrackedFile, TrackedFolder, active}
use bitprotector.Db.Provenance.{
  IsSettled, provenance_of, recompute_folder_provenance_for_drive,
  recompute_folder_provenance_for_drive_lem,
}
use bitprotector.Db.Files.{file_of_pair}
use bitprotector.Base.Table.{update_where}
use bitprotector.Tests.Data.{toy, small_fs, pair_with, tracked, world_with}

abbrev docs : TrackedFolder
docs = record {
  id = 3;
  drive_pair_id = 1;
  folder_path = text "docs/";
  virtual_path = none;
  include_checksum_sidecars = false;
  scanning = false;
  scan_scanned_files = 0;
  scan_total_files = 0;
  mirroring = false;
  deleting = false;
  mirror_mirrored_files = 0;
  mirror_total_files = 0;
  last_scanned_at = none;
  last_mirrored_at = none;
}

abbrev in_docs : TrackedFile
in_docs = record tracked {
  id = 6;
  relative_path = text "docs/b";
  tracked_direct = false;
  tracked_via_folder = true;
}

abbrev tracking_world : World
tracking_world = record (world_with active small_fs) {
  files = tracked ∷ in_docs ∷ [];
  folders = docs ∷ [];
  next_file_id = 7;
}

recompute_folder_provenance_for_drive_lem_example :
    ((recompute_folder_provenance_for_drive 1 tracking_world).1.files
      ≡ update_where (file_of_pair 1) (provenance_of (docs ∷ [])) (tracked ∷ in_docs ∷ []))
    × All (IsSettled 1) (recompute_folder_provenance_for_drive 1 tracking_world).1.files
recompute_folder_provenance_for_drive_lem_example =
    recompute_folder_provenance_for_drive_lem 1 tracking_world

create_tracked_file_from_disk_lem_example :
    DiskPost
      (pair_with active)
      (text "a")
      true
      false
      toy
      (λ b. some b)
      tracking_world
      (create_tracked_file_from_disk toy
        (λ b. some b)
        (pair_with active)
        (text "a")
        true
        false
        tracking_world)
create_tracked_file_from_disk_lem_example =
    create_tracked_file_from_disk_lem (pair_with active) (text "a") true false toy (λ b. some b)
      tracking_world refl

abbrev digits : Text
digits = text "0123456789abcdef0123456789abcdef0123456789abcdef0123456789abcdef"

abbrev spells_hash : Text → Bool
spells_hash [] = true
spells_hash (c ∷ cs) = is_lower_hex c && spells_hash cs

digits-IsLowerHex : (s : Text) → spells_hash s ≡ true → All IsLowerHex s
digits-IsLowerHex [] h = tt
digits-IsLowerHex (c ∷ cs) h = ground (arith, digits-IsLowerHex cs)

abbrev sidecar_fs : Fs
sidecar_fs = record small_fs {
  node = λ p.
      if text_eq p (text "/m/a.b3") then some (file 420 (sidecar_line digits (text "a"))) else none;
}

read_b3_sidecar-sidecar_line_example :
    read_b3_sidecar (λ b. some b) (text "/m/a") sidecar_fs ≡ (ok (some digits), sidecar_fs)
unfolding sidecar_path_for file_name after_slash text_eq
read_b3_sidecar-sidecar_line_example =
    read_b3_sidecar-sidecar_line (λ b. some b) (text "/m/a") (text "/m/a.b3") digits (text "a")
      (32 ∷ text "a" ++ 10 ∷ []) 420 sidecar_fs (digits-IsLowerHex digits refl) refl (omega arith)
      refl refl refl refl refl
