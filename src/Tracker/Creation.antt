-- ===== src/Tracker/Creation.antt =====
-- What a row says that is created for a file on the disk.
use bitprotector.Base.{
  Exec, List, ap, gets, ◌>>=◌, Option, continue, length, pure, text_eq_iff, ◌&&◌, Bool, Bool-cases,
  Result, Text, [], arith, err, false, inl, inr, is_some, none, ok, refl, some, true, ℕ, ◌++◌, ◌==◌,
  ◌∙◌, ◌∷◌, ◌≡◌,
}
use bitprotector.Fs.{
  read_fails, read_to_end, readable, open_file, Bytes, Fs, content, exists, is_file, join,
  node_mode, set_permissions, FilePath,
}
use bitprotector.Tracker.{
  create_tracked_file_from_disk, mismatch_of, SidecarMismatch, TrackedFileFromDisk,
  ensure_world_readable, normalized_mode,
}
use bitprotector.Sidecar.{read_b3_sidecar}
use bitprotector.Db.World.{in_fs, World}
use bitprotector.Checksum.Loop.{hash_content-eq-hash}
use bitprotector.Checksum.{checksum_file, hash_content, streaming, checksum_bytes}
use bitprotector.Drive.Pair.{active_path}
use bitprotector.Checksum.Hasher.{Blake3}
use bitprotector.Db.Rows.{DrivePair, TrackedFile}
use bitprotector.Db.Registration.{create_tracked_file_with_source}
use bitprotector.Db.Pairs.{pair_is}
use bitprotector.Db.Listing.{at_path}
use bitprotector.Db.Files.{file_is, get_tracked_file}
use bitprotector.Base.Table.Laws.{find-append}
use bitprotector.Base.Table.{find}

abbrev file_row : DrivePair → FilePath → Text → ℕ → Bool → Bool → ℕ → TrackedFile
file_row pair relative sum size direct via_folder id = record {
  id = id;
  drive_pair_id = pair.id;
  relative_path = relative;
  checksum = sum;
  file_size = size;
  virtual_path = none;
  is_mirrored = false;
  tracked_direct = direct;
  tracked_via_folder = via_folder;
  last_integrity_check_at = none;
}

same_id : (id : ℕ) → (id == id) ≡ true
same_id id = ground arith

module _ (pair : DrivePair) (relative : FilePath) (direct via_folder : Bool) where
  abbrev InsertPost : World → Text → ℕ → Result TrackedFile × World → Type 0
  InsertPost w sum size (ok f, v) =
      (f ≡ file_row pair relative sum size direct via_folder w.next_file_id)
      × (v.files ≡ w.files ++ f ∷ [])
      × (v.fs ≡ w.fs)
  InsertPost w sum size (err e, v) = v ≡ w

  find_new :
      (w : World) (sum : Text) (size : ℕ)
      → find (file_is w.next_file_id) w.files ≡ none
      → find
          (file_is w.next_file_id)
          (w.files ++ file_row pair relative sum size direct via_folder w.next_file_id ∷ [])
        ≡ some (file_row pair relative sum size direct via_folder w.next_file_id)
  find_new w sum size fresh =
      find-append (file_is w.next_file_id) w.files
        (file_row pair relative sum size direct via_folder w.next_file_id ∷ [])
      ∙ rw (fresh, same_id w.next_file_id) refl

  create_tracked_file_with_source-InsertPost :
      (w : World) (sum : Text) (size : ℕ)
      → find (file_is w.next_file_id) w.files ≡ none
      → InsertPost w sum size
          (create_tracked_file_with_source pair.id relative sum size none direct via_folder w)
  unfolding create_tracked_file_with_source get_tracked_file
  create_tracked_file_with_source-InsertPost w sum size fresh =
      elim (Bool-cases (is_some (find (at_path pair.id relative) w.files))) [
        | inl taken ↦ rw taken refl
        | inr free ↦ rw free (elim (Bool-cases (is_some (find (pair_is pair.id) w.pairs))) [
          | inr missing ↦ rw missing refl
          | inl known ↦ rw (known, find_new w sum size fresh) (refl, refl, refl)
        ])
      ]

  set_permissions-content :
      (p : FilePath) (mode : ℕ) (fs : Fs) → content (set_permissions p mode fs).1 p ≡ content fs p
  unfolding set_permissions
  set_permissions-content p mode fs = elim (Bool-cases (is_file fs p && fs.can_write p)) [
    | inl may ↦ rw (may, (text_eq_iff p p).1 refl) refl
    | inr may_not ↦ rw may_not refl
  ]

  ensure_world_readable-content :
      (p : FilePath) (fs : Fs) → content (ensure_world_readable p fs).1 p ≡ content fs p
  unfolding ensure_world_readable
  ensure_world_readable-content p fs = elim (Bool-cases (exists fs p)) [
    | inr missing ↦ rw missing refl
    | inl present ↦
        rw present
          (elim (Bool-cases (normalized_mode (node_mode (fs.node p)) == node_mode (fs.node p))) [
            | inl readable ↦ rw readable refl
            | inr closed ↦
                rw closed (set_permissions-content p (normalized_mode (node_mode (fs.node p))) fs)
          ])
  ]

  abbrev master_file : FilePath
  master_file = join (active_path pair) relative

  module _ (b3 : Blake3) (decode : Bytes → Option Text) where
    -- The row that was added says what the file holds, or the rows are as they were.
    abbrev pub DiskPost : World → Result TrackedFileFromDisk × World → Type 0
    DiskPost w (ok r, v) =
        (r.tracked_file
          ≡ file_row pair relative (checksum_bytes b3 (content w.fs master_file))
              (length (content w.fs master_file)) direct via_folder w.next_file_id)
        × (v.files ≡ w.files ++ r.tracked_file ∷ [])
        × (content v.fs master_file ≡ content w.fs master_file)
    DiskPost w (err e, v) =
        (v.files ≡ w.files) × (content v.fs master_file ≡ content w.fs master_file)

    inserted :
        (w v : World) (sum : Text) (r : Result TrackedFile × World) (m : Option SidecarMismatch)
        → v.files ≡ w.files
        → v.next_file_id ≡ w.next_file_id
        → content v.fs master_file ≡ content w.fs master_file
        → sum ≡ checksum_bytes b3 (content v.fs master_file)
        → InsertPost v sum (length (content v.fs master_file)) r
        → DiskPost w
            (continue r.0 (λ f. pure (record { tracked_file = f; sidecar_mismatch = m })) r.1)
    inserted w v sum (ok f, u) m same id kept hashed post = (
      rw (post.0, hashed, kept, id) refl,
      post.1 ∙ ap (λ (l : List TrackedFile). l ++ f ∷ []) same,
      ap (λ (d : Fs). content d master_file) post.2 ∙ kept,
    )
    inserted w v sum (err e, u) m same id kept hashed post = (
      ap (λ (x : World). x.files) post ∙ same,
      ap (λ (x : World). content x.fs master_file) post ∙ kept,
    )

    -- What follows once the file is readable.
    abbrev rest_of_creation : Exec World TrackedFileFromDisk
    rest_of_creation = do
      sum ← in_fs (checksum_file b3 master_file streaming)
      sidecar ← gets (λ w. (read_b3_sidecar decode master_file w.fs).0)
      size ← gets (λ w. length (content w.fs master_file))
      file ← create_tracked_file_with_source pair.id relative sum size none direct via_folder
      pure (record { tracked_file = file; sidecar_mismatch = mismatch_of sum sidecar })

    after_ensure :
        (w : World) (r : Result (Unit {0}) × Fs)
        → content r.1 master_file ≡ content w.fs master_file
        → find (file_is w.next_file_id) w.files ≡ none
        → DiskPost w (continue r.0 (λ _. rest_of_creation) (record w { fs = r.1 }))
    unfolding checksum_file open_file read_to_end
    after_ensure w (err e, fs) kept fresh = (refl, kept)
    after_ensure w (ok done, fs) kept fresh =
        elim (Bool-cases (exists fs master_file && fs.can_read master_file)) [
          | inr closed ↦ rw closed (refl, kept)
          | inl opened ↦ elim (Bool-cases (read_fails fs master_file)) [
            | inl broken ↦ rw (opened, broken) (refl, kept)
            | inr whole ↦
                rw (opened, whole)
                  (inserted w (record w { fs = fs })
                    (hash_content b3 streaming (content fs master_file)) _ _ refl refl kept
                    (hash_content-eq-hash b3 streaming (content fs master_file))
                    (create_tracked_file_with_source-InsertPost (record w { fs = fs })
                      (hash_content b3 streaming (content fs master_file))
                      (length (content fs master_file)) fresh))
          ]
        ]

    -- Tracking a file from the disk adds one row, with the next id, the BLAKE3 hash of the content
    -- of the file on the active drive and its length, where no row has that id yet; it changes no
    -- other row, and not the content. Where it fails the rows are as they were.
    pub create_tracked_file_from_disk_lem :
        (w : World)
        → find (file_is w.next_file_id) w.files ≡ none
        → DiskPost w (create_tracked_file_from_disk b3 decode pair relative direct via_folder w)
    unfolding create_tracked_file_from_disk checksum_file open_file read_to_end
    create_tracked_file_from_disk_lem w fresh = elim (Bool-cases (exists w.fs master_file)) [
      | inr missing ↦ rw missing (refl, refl)
      | inl present ↦ rw present (
          after_ensure w (ensure_world_readable master_file w.fs)
            (ensure_world_readable-content master_file w.fs) fresh)
    ]
