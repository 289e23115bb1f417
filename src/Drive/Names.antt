-- ===== src/Drive/Names.antt =====
-- core/drive.rs: the words that the database stores for roles, states and media types.
use bitprotector.Base.{◌≡◌, refl, if◌then◌else◌, Text, text, text_eq}
use bitprotector.Checksum.{DriveMediaType, hdd, ssd}
use bitprotector.Db.Rows.{DriveRole, primary, secondary, DriveState, active, quiescing, rebuilding}

unfoldable pub role_as_str : DriveRole → Text
role_as_str primary = text "primary"
role_as_str secondary = text "secondary"

-- Any other word is read as the primary role.
unfoldable pub role_from_str : Text → DriveRole
role_from_str value = if text_eq value (text "secondary") then secondary else primary

unfoldable pub state_as_str : DriveState → Text
state_as_str active = text "active"
state_as_str quiescing = text "quiescing"
state_as_str DriveState.failed = text "failed"
state_as_str rebuilding = text "rebuilding"

-- Any other word is read as the active state.
unfoldable pub state_from_str : Text → DriveState
state_from_str value =
    if text_eq value (text "quiescing")
    then quiescing
    else if text_eq value (text "failed")
    then DriveState.failed
    else if text_eq value (text "rebuilding")
    then rebuilding
    else active

unfoldable pub media_as_str : DriveMediaType → Text
media_as_str hdd = text "hdd"
media_as_str ssd = text "ssd"

unfoldable pub media_from_str : Text → DriveMediaType
media_from_str value = if text_eq value (text "ssd") then ssd else hdd

role_round_trip : (r : DriveRole) → role_from_str (role_as_str r) ≡ r
unfolding role_from_str role_as_str text_eq
role_round_trip primary = refl
role_round_trip secondary = refl

state_round_trip : (s : DriveState) → state_from_str (state_as_str s) ≡ s
unfolding state_from_str state_as_str text_eq
state_round_trip active = refl
state_round_trip quiescing = refl
state_round_trip DriveState.failed = refl
state_round_trip rebuilding = refl

media_round_trip : (m : DriveMediaType) → media_from_str (media_as_str m) ≡ m
unfolding media_from_str media_as_str text_eq
media_round_trip hdd = refl
media_round_trip ssd = refl

-- Reading back the word that was stored for a role, a state or a media type gives it again.
pub from_str-as_str :
    (r : DriveRole) (s : DriveState) (m : DriveMediaType)
    → (role_from_str (role_as_str r) ≡ r)
      × (state_from_str (state_as_str s) ≡ s)
      × (media_from_str (media_as_str m) ≡ m)
from_str-as_str r s m = (role_round_trip r, state_round_trip s, media_round_trip m)
