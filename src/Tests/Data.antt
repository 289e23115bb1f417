-- ===== src/Tests/Data.antt =====
-- A pair of drives at /m and /s with one file `a` on both, and the rows that go with it.
use mathlib.Core.List.{append-nil, append_assoc}
use bitprotector.Base.{
  ℕ, ◌≡◌, ◌≢◌, refl, true, false, Option, none, some, List, [], ◌∷◌, ◌++◌, arith, Text, text,
  text_eq, text_eq_iff, if◌then◌else◌,
}
use bitprotector.Fs.{FilePath, Fs, Node, file, directory}
use bitprotector.Checksum.{hdd}
use bitprotector.Checksum.Hasher.{Blake3}
use bitprotector.Db.Rows.{
  DrivePair, DriveState, active, primary, TrackedFile, SyncQueueItem, mirror, pending,
}
use bitprotector.Db.World.{World}

-- A hasher that keeps all its input.
abbrev pub toy : Blake3
toy = record {
  Hasher = List ℕ;
  new = [];
  update = λ h b. h ++ b;
  finalize = λ h. h;
  hash = λ b. b;
  update-nil = λ h. append-nil h;
  update-append = λ h a b. append_assoc h a b;
  finalize-update = λ b. refl;
}

pub texts_differ : (a b : Text) → text_eq a b ≡ false → a ≢ b
texts_differ a b h = ground (arith, text_eq_iff a b)

abbrev pub on_master : FilePath
on_master = text "/m/a"

abbrev pub on_mirror : FilePath
on_mirror = text "/s/a"

abbrev pub small_node : FilePath → Option Node
small_node p =
    if text_eq p (text "/m")
    then some (directory true)
    else if text_eq p (text "/s")
    then some (directory true)
    else if text_eq p on_master
    then some (file 420 (1 ∷ 2 ∷ []))
    else if text_eq p on_mirror
    then some (file 420 (9 ∷ []))
    else none

abbrev pub small_fs : Fs
small_fs = record {
  node = small_node;
  can_write = λ p. true;
  can_read = λ p. true;
  read_error = λ p. none;
  has_room = λ p n. true;
}

-- The same with the drive at /m gone.
abbrev pub lost_fs : Fs
lost_fs = record small_fs { node = λ p. if text_eq p (text "/m") then none else small_node p }

abbrev pub pair_with : DriveState → DrivePair
pair_with state = record {
  id = 1;
  name = text "p";
  primary_path = text "/m";
  secondary_path = text "/s";
  primary_state = state;
  secondary_state = active;
  active_role = primary;
  primary_media_type = hdd;
  secondary_media_type = hdd;
}

abbrev pub tracked : TrackedFile
tracked = record {
  id = 5;
  drive_pair_id = 1;
  relative_path = text "a";
  checksum = 1 ∷ 2 ∷ [];
  file_size = 2;
  virtual_path = some (text "/v/a");
  is_mirrored = true;
  tracked_direct = true;
  tracked_via_folder = false;
  last_integrity_check_at = none;
}

abbrev pub mirror_item : SyncQueueItem
mirror_item = record {
  id = 7;
  tracked_file_id = 5;
  action = mirror;
  status = pending;
  error_message = none;
  reason = none;
  completed_at = none;
}

abbrev pub world_with : DriveState → Fs → World
world_with state fs = record {
  pairs = pair_with state ∷ [];
  files = tracked ∷ [];
  folders = [];
  queue = mirror_item ∷ [];
  next_item_id = 8;
  settings = record {
    queue_paused = false;
    processing_locked_at = none;
    processing_locked_by_pid = none;
  };
  events = [];
  fs = fs;
  links = λ p. none;
  now = 1000;
  runs = [];
  run_results = [];
  next_pair_id = 2;
  next_file_id = 6;
  next_folder_id = 1;
  next_run_id = 1;
  next_result_id = 1;
}
