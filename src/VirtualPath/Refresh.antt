-- ===== src/VirtualPath/Refresh.antt =====
-- core/virtual_path.rs: reservations, validation, the links themselves and their regeneration.
use bitprotector.Base.{
  ℕ, suc, Bool, true, false, not, ◌&&◌, ◌||◌, Option, none, some, List, [], ◌∷◌, ◌++◌, ◌==◌,
  if◌then◌else◌, Text, text_eq, Error, Result, ok, err, Exec, pure, raise, raise_if, lift, gets,
  modify, ◌>>=◌, ◌>>◌, virtual_path_taken, virtual_path_overlaps, not_a_symlink, remove_failed,
  create_failed, pair_not_found,
}
use bitprotector.Fs.{FilePath, create_parent, join}
use bitprotector.Db.Rows.{DrivePair, TrackedFile, TrackedFolder}
use bitprotector.Db.World.{World, in_fs}
use bitprotector.Drive.Pair.{active_path}
use bitprotector.VirtualPath.Normalize.{normalize_virtual_path, starts_with_slash}

pub data VirtualOwner : Type 0 where
  file folder : ℕ → VirtualOwner

abbrev pub owner_eq : VirtualOwner → VirtualOwner → Bool
owner_eq (file a) (file b) = a == b
owner_eq (file a) (folder b) = false
owner_eq (folder a) (file b) = false
owner_eq (folder a) (folder b) = a == b

pub record VirtualReservation : Type 0 where
  pub owner : VirtualOwner
  pub virtual_path : Text

pub record VirtualMapping : Type 0 where
  pub owner : VirtualOwner
  pub virtual_path : Text
  pub real_path : FilePath

-- str::strip_prefix
unfoldable pub strip_prefix : Text → Text → Option Text
strip_prefix s [] = some s
strip_prefix [] (p ∷ ps) = none
strip_prefix (c ∷ cs) (p ∷ ps) = let rest = strip_prefix cs ps in if c == p then rest else none

-- The text goes on with a separator behind the prefix.
abbrev pub goes_on : Option Text → Bool
goes_on none = false
goes_on (some suffix) = starts_with_slash suffix

unfoldable pub paths_overlap : Text → Text → Bool
paths_overlap left right =
    text_eq left right || goes_on (strip_prefix left right) || goes_on (strip_prefix right left)

abbrev pub cons_ok : {A : Type 0} → A → Result (List A) → Result (List A)
cons_ok a (ok as') = ok (a ∷ as')
cons_ok a (err e) = err e

abbrev reserve :
    VirtualOwner → Result Text → Result (List VirtualReservation) → Result (List VirtualReservation)
reserve o (err e) rest = err e
reserve o (ok v) rest = cons_ok (record { owner = o; virtual_path = v }) rest

unfoldable pub folder_reservations : List TrackedFolder → Result (List VirtualReservation)
folder_reservations [] = ok []
folder_reservations (d ∷ ds) =
    let rest = folder_reservations ds in
    elim d.virtual_path [
      | none ↦ rest
      | some v ↦ reserve (folder d.id) (normalize_virtual_path v) rest
    ]

unfoldable pub file_reservations :
    List TrackedFile → List TrackedFolder → Result (List VirtualReservation)
file_reservations [] folders = folder_reservations folders
file_reservations (f ∷ fs) folders =
    let rest = file_reservations fs folders in
    elim f.virtual_path [
      | none ↦ rest
      | some v ↦ reserve (file f.id) (normalize_virtual_path v) rest
    ]

unfoldable pub collect_virtual_reservations : World → Result (List VirtualReservation)
collect_virtual_reservations w = file_reservations w.files w.folders

-- The loop of validate_virtual_path over the reservations of other owners.
unfoldable pub check_reservations :
    VirtualOwner → Text → List VirtualReservation → Result (Unit {0})
check_reservations owner normalized [] = ok tt
check_reservations owner normalized (r ∷ rs) =
    let rest = check_reservations owner normalized rs in
    if owner_eq r.owner owner
    then rest
    else if text_eq r.virtual_path normalized
    then err virtual_path_taken
    else if paths_overlap r.virtual_path normalized
    then err virtual_path_overlaps
    else rest

unfoldable pub owned_by : VirtualOwner → Text → List VirtualReservation → Bool
owned_by owner normalized [] = false
owned_by owner normalized (r ∷ rs) =
    (owner_eq r.owner owner && text_eq r.virtual_path normalized) || owned_by owner normalized rs

-- fs::symlink_metadata of a path outside the drives
pub data LinkMetadata : Type 0 where
  not_found symlink other : LinkMetadata

abbrev pub link_metadata : World → FilePath → LinkMetadata
link_metadata w path = elim (w.links path) [
  | some target ↦ symlink
  | none ↦ elim (w.fs.node path) [ none ↦ not_found | some n ↦ other ]
]

unfoldable pub validate_virtual_path : VirtualOwner → Text → Exec World Text
validate_virtual_path owner virtual = do
  normalized ← lift (normalize_virtual_path virtual)
  reservations ← (λ w. lift (collect_virtual_reservations w) w)
  lift (check_reservations owner normalized reservations)
  meta ← gets (λ w. link_metadata w normalized)
  elim meta [
    | not_found ↦ pure normalized
    | other ↦ raise not_a_symlink
    | symlink ↦
        if owned_by owner normalized reservations then pure normalized else raise virtual_path_taken
  ]

abbrev pub set_link : FilePath → Option FilePath → World → World
set_link path target w = record w { links = λ q. if text_eq path q then target else w.links q }

abbrev pub is_there : LinkMetadata → Bool
is_there not_found = false
is_there symlink = true
is_there other = true

-- std::os::unix::fs::symlink, which refuses a path where something is.
abbrev pub place_link : Text → FilePath → Exec World (Unit {0})
place_link virtual real = do
  meta ← gets (λ w. link_metadata w virtual)
  raise_if (is_there meta) create_failed
  writable ← gets (λ w. w.fs.can_write virtual)
  raise_if (not writable) create_failed
  modify (set_link virtual (some real))

unfoldable pub create_symlink : Text → FilePath → Bool → Exec World (Unit {0})
create_symlink virtual real allow_replace = do
  in_fs (create_parent virtual)
  meta ← gets (λ w. link_metadata w virtual)
  elim meta [
    | not_found ↦ pure tt
    | other ↦ raise not_a_symlink
    | symlink ↦ if not allow_replace then raise virtual_path_taken else do
      writable ← gets (λ w. w.fs.can_write virtual)
      raise_if (not writable) remove_failed
      modify (set_link virtual none)
  ]
  place_link virtual real

unfoldable pub remove_symlink : Text → Exec World (Unit {0})
remove_symlink virtual = do
  meta ← gets (λ w. link_metadata w virtual)
  elim meta [
    | not_found ↦ pure tt
    | other ↦ raise not_a_symlink
    | symlink ↦ do
      writable ← gets (λ w. w.fs.can_write virtual)
      raise_if (not writable) remove_failed
      modify (set_link virtual none)
  ]

abbrev pub map_to :
    VirtualOwner
    → Option DrivePair
    → Result Text
    → FilePath
    → Result (List VirtualMapping)
    → Result (List VirtualMapping)
map_to o none v relative rest = err pair_not_found
map_to o (some pair) (err e) relative rest = err e
map_to o (some pair) (ok v) relative rest =
    cons_ok (record { owner = o; virtual_path = v; real_path = join (active_path pair) relative })
      rest

unfoldable pub folder_mappings :
    (ℕ → Option DrivePair) → List TrackedFolder → Result (List VirtualMapping)
folder_mappings pairs [] = ok []
folder_mappings pairs (d ∷ ds) =
    let rest = folder_mappings pairs ds in
    elim d.virtual_path [
      | none ↦ rest
      | some v ↦
          map_to (folder d.id) (pairs d.drive_pair_id) (normalize_virtual_path v) d.folder_path rest
    ]

-- collect_virtual_mappings
unfoldable pub file_mappings :
    (ℕ → Option DrivePair) → List TrackedFile → List TrackedFolder → Result (List VirtualMapping)
file_mappings pairs [] folders = folder_mappings pairs folders
file_mappings pairs (f ∷ fs) folders =
    let rest = file_mappings pairs fs folders in
    elim f.virtual_path [
      | none ↦ rest
      | some v ↦
          map_to (file f.id) (pairs f.drive_pair_id) (normalize_virtual_path v) f.relative_path rest
    ]

pub record SymlinkRefreshResult : Type 0 where
  pub created : ℕ
  pub removed : ℕ
  pub errors : List (VirtualOwner × Error)

abbrev pub note_outcome :
    VirtualOwner → {A : Type 0} → Result A → SymlinkRefreshResult → SymlinkRefreshResult
note_outcome o (ok _) r = record r { created = suc r.created }
note_outcome o (err e) r = record r { errors = r.errors ++ (o, e) ∷ [] }

-- The body of the loop: an error of one mapping is kept and the loop goes on.
unfoldable pub refresh_mapping : VirtualMapping → World → Result (Unit {0}) × World
refresh_mapping m = do
  validate_virtual_path m.owner m.virtual_path
  create_symlink m.virtual_path m.real_path true

unfoldable pub refresh_loop :
    List VirtualMapping → SymlinkRefreshResult → Exec World SymlinkRefreshResult
refresh_loop [] acc w = (ok acc, w)
refresh_loop (m ∷ ms) acc w =
    let (r, w') = refresh_mapping m w in refresh_loop ms (note_outcome m.owner r acc) w'

unfoldable pub refresh_all_virtual_paths : (ℕ → Option DrivePair) → Exec World SymlinkRefreshResult
refresh_all_virtual_paths pairs = do
  mappings ← (λ w. lift (file_mappings pairs w.files w.folders) w)
  refresh_loop mappings (record { created = 0; removed = 0; errors = [] })
