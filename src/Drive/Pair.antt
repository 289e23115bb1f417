-- ===== src/Drive/Pair.antt =====
-- core/drive.rs: the methods of DrivePair and the tests of the drive roots.
use bitprotector.Checksum.{DriveMediaType}
use bitprotector.Base.{
  Result, ok, err, wrong_drive_state, Bool, true, false, not, ◌&&◌, ◌||◌, Option, none, some, [],
  ◌∷◌, ◌++◌, Text, text, Exec, pure, raise_if, gets, ◌>>=◌, ◌>>◌, if◌then◌else◌, root_unavailable,
}
use bitprotector.Fs.{FilePath, Fs, Node, file, directory, exists, join, write}
use bitprotector.Db.Rows.{
  DriveRole, primary, secondary, DriveState, active, quiescing, rebuilding, state_eq, DrivePair,
}

abbrev pub opposite : DriveRole → DriveRole
opposite primary = secondary
opposite secondary = primary

abbrev pub role_state : DrivePair → DriveRole → DriveState
role_state pair primary = pair.primary_state
role_state pair secondary = pair.secondary_state

abbrev pub standby_role : DrivePair → DriveRole
standby_role pair = opposite pair.active_role

abbrev pub path_for_role : DrivePair → DriveRole → FilePath
path_for_role pair primary = pair.primary_path
path_for_role pair secondary = pair.secondary_path

abbrev pub active_path : DrivePair → FilePath
active_path pair = path_for_role pair pair.active_role

abbrev pub standby_path : DrivePair → FilePath
standby_path pair = path_for_role pair (standby_role pair)

unfoldable pub is_quiescing : DrivePair → Bool
is_quiescing pair = state_eq pair.primary_state quiescing || state_eq pair.secondary_state quiescing

unfoldable pub is_degraded : DrivePair → Bool
is_degraded pair =
    not (state_eq pair.primary_state active) || not (state_eq pair.secondary_state active)

-- metadata, is_dir and read_dir all succeed.
abbrev pub node_is_available : Option Node → Bool
node_is_available none = false
node_is_available (some (file m b)) = false
node_is_available (some (directory listable)) = listable

unfoldable pub path_is_available : Fs → FilePath → Bool
path_is_available fs path = node_is_available (fs.node path)

-- matches!(state, Active | Rebuilding)
abbrev pub accepts_sync : DriveState → Bool
accepts_sync active = true
accepts_sync quiescing = false
accepts_sync DriveState.failed = false
accepts_sync rebuilding = true

unfoldable pub standby_accepts_sync : Fs → DrivePair → Bool
standby_accepts_sync fs pair =
    accepts_sync (role_state pair (standby_role pair)) && path_is_available fs (standby_path pair)

abbrev pub drive_root_marker : Text
drive_root_marker = text ".bitprotector-drive-root"

abbrev pub drive_root_marker_path : FilePath → FilePath
drive_root_marker_path path = join path drive_root_marker

abbrev pub marker_text : Text
marker_text = text "bitprotector managed root" ++ 10 ∷ []

unfoldable pub ensure_drive_root_marker : FilePath → Exec Fs (Unit {0})
ensure_drive_root_marker path = do
  available ← gets (λ fs. path_is_available fs path)
  raise_if (not available) root_unavailable
  marked ← gets (λ fs. exists fs (drive_root_marker_path path))
  if marked then pure tt else write (drive_root_marker_path path) marker_text

unfoldable pub missing_expected_root_marker : Fs → DrivePair → DriveRole → Bool
missing_expected_root_marker fs pair role =
    path_is_available fs (path_for_role pair role)
    && not (exists fs (drive_root_marker_path (path_for_role pair role)))
    && exists fs (drive_root_marker_path (path_for_role pair (opposite role)))

abbrev pub media_type_for_role : DrivePair → DriveRole → DriveMediaType
media_type_for_role pair primary = pair.primary_media_type
media_type_for_role pair secondary = pair.secondary_media_type

unfoldable pub require_pair_mutation_allowed : DrivePair → Result (Unit {0})
require_pair_mutation_allowed pair = if is_quiescing pair then err wrong_drive_state else ok tt
