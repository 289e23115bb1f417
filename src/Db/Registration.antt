-- ===== src/Db/Registration.antt =====
-- db/repository.rs: the statements that add drive pairs and tracked files, and that change them.
use bitprotector.Db.Rows.{active, DrivePair, TrackedFile, primary}
use bitprotector.Fs.{FilePath}
use bitprotector.Db.World.{World}
use bitprotector.Db.Pairs.{get_drive_pair, given_or, pair_is}
use bitprotector.Db.Listing.{at_path}
use bitprotector.Db.Files.{file_is, file_of_pair, get_tracked_file, update_files}
use bitprotector.Checksum.{DriveMediaType, hdd}
use bitprotector.Base.Table.{count_where, find, update_where}
use bitprotector.Base.{
  Bool, Exec, List, Option, Text, [], duplicate_drive_path, duplicate_row, false,
  foreign_key_failed, gets, is_some, modify, none, not, pure, raise_if, some, text_eq, true, ℕ,
  ◌&&◌, ◌++◌, ◌+◌, ◌>>=◌, ◌>>◌, ◌||◌, ◌∷◌,
}

unfoldable pub list_drive_pairs : Exec World (List DrivePair)
list_drive_pairs = gets (λ w. w.pairs)

abbrev pub has_path : FilePath → DrivePair → Bool
has_path path p = text_eq p.primary_path path || text_eq p.secondary_path path

abbrev pub pair_named : Text → DrivePair → Bool
pair_named name p = text_eq p.name name

-- The triggers refuse a path that any drive has, the UNIQUE constraint a name that is taken.
unfoldable pub create_drive_pair_with_media :
    Text → FilePath → FilePath → DriveMediaType → DriveMediaType → Exec World DrivePair
create_drive_pair_with_media name primary_path secondary_path primary_media secondary_media = do
  primary_taken ← gets (λ w. is_some (find (has_path primary_path) w.pairs))
  raise_if primary_taken duplicate_drive_path
  secondary_taken ← gets (λ w. is_some (find (has_path secondary_path) w.pairs))
  raise_if secondary_taken duplicate_drive_path
  name_taken ← gets (λ w. is_some (find (pair_named name) w.pairs))
  raise_if name_taken duplicate_row
  id ← gets (λ w. w.next_pair_id)
  modify (λ w. record w {
    pairs =
        w.pairs
        ++ record {
          id = id;
          name = name;
          primary_path = primary_path;
          secondary_path = secondary_path;
          primary_state = active;
          secondary_state = active;
          active_role = primary;
          primary_media_type = primary_media;
          secondary_media_type = secondary_media;
        }
          ∷ [];
    next_pair_id = id + 1;
  })
  get_drive_pair id

unfoldable pub create_drive_pair : Text → FilePath → FilePath → Exec World DrivePair
create_drive_pair name primary_path secondary_path =
    create_drive_pair_with_media name primary_path secondary_path hdd hdd

-- UPDATE ... SET name: the name of another pair is refused.
unfoldable pub set_pair_name : ℕ → Option Text → Exec World (Unit {0})
set_pair_name id none = pure tt
set_pair_name id (some name) = do
  known ← gets (λ w. is_some (find (pair_is id) w.pairs))
  taken ← gets (λ w. is_some (find (λ p. pair_named name p && not (pair_is id p)) w.pairs))
  raise_if (known && taken) duplicate_row
  modify
      (λ w. record w { pairs = update_where (pair_is id) (λ p. record p { name = name }) w.pairs })

abbrev pub set_pair_drives :
    Option FilePath
    → Option FilePath
    → Option DriveMediaType
    → Option DriveMediaType
    → DrivePair
    → DrivePair
set_pair_drives primary_path secondary_path primary_media secondary_media p = record p {
  primary_path = given_or primary_path p.primary_path;
  secondary_path = given_or secondary_path p.secondary_path;
  primary_media_type = given_or primary_media p.primary_media_type;
  secondary_media_type = given_or secondary_media p.secondary_media_type;
}

unfoldable pub update_drive_pair_with_media :
    ℕ
    → Option Text
    → Option FilePath
    → Option FilePath
    → Option DriveMediaType
    → Option DriveMediaType
    → Exec World DrivePair
update_drive_pair_with_media id name primary_path secondary_path primary_media secondary_media = do
  set_pair_name id name
  modify (λ w. record w {
    pairs =
        update_where (pair_is id)
          (set_pair_drives primary_path secondary_path primary_media secondary_media) w.pairs;
  })
  get_drive_pair id

unfoldable pub update_drive_pair :
    ℕ → Option Text → Option FilePath → Option FilePath → Exec World DrivePair
update_drive_pair id name primary_path secondary_path =
    update_drive_pair_with_media id name primary_path secondary_path none none

unfoldable pub count_tracked_files_for_drive_pair : ℕ → Exec World ℕ
count_tracked_files_for_drive_pair pair_id = gets (λ w. count_where (file_of_pair pair_id) w.files)

-- UNIQUE(drive_pair_id, relative_path), and the pair that the file refers to.
unfoldable pub create_tracked_file_with_source :
    ℕ → FilePath → Text → ℕ → Option Text → Bool → Bool → Exec World TrackedFile
create_tracked_file_with_source pair_id path sum size virtual direct via_folder = do
  taken ← gets (λ w. is_some (find (at_path pair_id path) w.files))
  raise_if taken duplicate_row
  known ← gets (λ w. is_some (find (pair_is pair_id) w.pairs))
  raise_if (not known) foreign_key_failed
  id ← gets (λ w. w.next_file_id)
  modify (λ w. record w {
    files =
        w.files
        ++ record {
          id = id;
          drive_pair_id = pair_id;
          relative_path = path;
          checksum = sum;
          file_size = size;
          virtual_path = virtual;
          is_mirrored = false;
          tracked_direct = direct;
          tracked_via_folder = via_folder;
          last_integrity_check_at = none;
        }
          ∷ [];
    next_file_id = id + 1;
  })
  get_tracked_file id

unfoldable pub create_tracked_file : ℕ → FilePath → Text → ℕ → Option Text → Exec World TrackedFile
create_tracked_file pair_id path sum size virtual =
    create_tracked_file_with_source pair_id path sum size virtual true false

unfoldable pub update_tracked_file_sources : ℕ → Bool → Bool → Exec World (Unit {0})
update_tracked_file_sources id direct via_folder = modify (
    update_files (file_is id)
      (λ f. record f { tracked_direct = direct; tracked_via_folder = via_folder }))
